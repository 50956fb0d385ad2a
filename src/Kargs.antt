-- ===== src/Kargs.antt =====
-- pkg/kargs/kargs.go: merging kernel command line arguments. `kept := current[:0]` reuses the array
-- of `current`; the loop writes at most one argument for each that it has read, so the model builds
-- a new list. Proofs are in the child modules.
pub mod Put
pub mod Tokens
pub mod Merge
mod Tests
use actions.Prelude.{
  ◌≡◌, refl, Bool, true, false, not, ◌&&◌, ◌||◌, List, [], ◌∷◌, ◌++◌, if◌then◌else◌,
}
use actions.Text.{Text, Cut, cut, text_eq, has_member, join, codes}
use actions.Text.Fields.{fields, space}

-- key, _, hasValue := strings.Cut(arg, "=")
abbrev pub key : Text → Text
key arg = (cut b'=' arg).before

abbrev pub has_value : Text → Bool
has_value arg = (cut b'=' arg).found

-- `c` is a key=value argument with this key.
unfoldable pub has_key : Text → Text → Bool
has_key k c = has_value c && text_eq (key c) k

-- The inner loop: the arguments that are kept, and whether one was replaced.
unfoldable pub replace : Text → Bool → List Text → List Text × Bool
replace arg replaced [] = ([], replaced)
replace arg replaced (c ∷ current) =
    let hit = has_key (key arg) c in
    let (kept, done) = replace arg (replaced || hit) current in
    if hit then (if replaced then kept else arg ∷ kept, done) else (c ∷ kept, done)

-- One round of the outer loop.
unfoldable pub merge_arg : List Text → Text → List Text
unfolding replace
merge_arg current arg =
    if not (has_value arg)
    then (if not (has_member current arg) then current ++ arg ∷ [] else current)
    else let (kept, replaced) = replace arg false current in
      if not replaced then kept ++ arg ∷ [] else kept

-- The outer loop.
unfoldable pub merge_args : List Text → List Text → List Text
merge_args current [] = current
merge_args current (arg ∷ args) = merge_args (merge_arg current arg) args

unfoldable pub merge : Text → Text → Text
unfolding merge_args merge_arg
merge existing set = join (merge_args (fields existing) (fields set)) space
