-- ===== src/Factory.antt =====
-- pkg/factory: versions, installer references and image URLs. Regular expressions are the functions
-- that match them: after each of their parts comes a character that the part cannot match, so nothing
-- is given back.
pub mod Resolved
pub mod Client
mod Tests
use actions.Prelude.{
  ℕ, ◌+◌, Bool, true, false, not, ◌&&◌, ◌||◌, List, [], ◌∷◌, ◌++◌, Option, none, some, Error,
  Result, ok, err, not_a_version, no_released_patch, length, take, drop, any, leb, ltb, ◌==◌,
  if◌then◌else◌,
}
use actions.Text.{Text, codes, text_eq, cut, trim_space, has_prefix, contains, has_member}
use actions.Text.Numbers.{is_digit, atoi}

-- What follows the digits that a text starts with.
unfoldable pub after_digits : Text → Text
after_digits [] = []
after_digits (c ∷ s) = let rest = after_digits s in if is_digit c then rest else c ∷ s

-- \d+
unfoldable pub skip_number : Text → Option Text
unfolding after_digits
skip_number [] = none
skip_number (c ∷ s) = if is_digit c then some (after_digits s) else none

-- One character.
unfoldable pub skip_char : ℕ → Text → Option Text
skip_char d [] = none
skip_char d (c ∷ s) = if c == d then some s else none

-- `m` and then `f`, on what is left.
abbrev pub then_skip : Option Text → (Text → Option Text) → Option Text
then_skip none f = none
then_skip (some s) f = f s

-- ^v\d+\.\d+
unfoldable pub skip_minor : Text → Option Text
unfolding skip_number skip_char
skip_minor v =
    then_skip (then_skip (then_skip (skip_char b'v' v) skip_number) (skip_char b'.')) skip_number

-- [0-9A-Za-z.\-]
abbrev pub is_suffix_char : ℕ → Bool
is_suffix_char c =
    is_digit c || (leb 65 c && leb c 90) || (leb 97 c && leb c 122) || c == b'.' || c == b'-'

-- (-[0-9A-Za-z.\-]+)?$
unfoldable pub is_suffix : Text → Bool
is_suffix [] = true
is_suffix (c ∷ s) = c == b'-' && not (text_eq s []) && not (any (λ d. not (is_suffix_char d)) s)

abbrev pub ends_in : Option Text → (Text → Bool) → Bool
ends_in none p = false
ends_in (some s) p = p s

-- IsFullVersion
unfoldable pub is_full_version : Text → Bool
unfolding is_suffix
is_full_version v =
    ends_in (then_skip (then_skip (skip_minor v) (skip_char b'.')) skip_number) is_suffix

-- IsBareMinor
unfoldable pub is_bare_minor : Text → Bool
is_bare_minor v = ends_in (skip_minor v) (λ s. text_eq s [])

-- The patch number of a release of the minor, none for what the loop of ResolveVersion skips. A
-- number below zero is not above the -1 that the loop starts with.
unfoldable pub patch_of : Text → Text → Option ℕ
unfolding has_prefix contains
patch_of prefix v =
    if not (has_prefix v prefix) || contains v (codes "-")
    then none
    else elim (atoi (drop (length prefix) v)) [
      | none ↦ none
      | some (negative, n) ↦ if negative && not (n == 0) then none else some n
    ]

-- `patch > bestPatch`, where none is -1.
abbrev pub exceeds : ℕ → Option ℕ → Bool
exceeds n none = true
exceeds n (some b) = ltb b n

-- The loop of ResolveVersion: the best version so far and its patch.
unfoldable pub best_patch : Text → Text × Option ℕ → List Text → Text × Option ℕ
best_patch prefix best [] = best
best_patch prefix best (v ∷ versions) = elim (patch_of prefix v) [
  | none ↦ best_patch prefix best versions
  | some n ↦ best_patch prefix (if exceeds n best.1 then (v, some n) else best) versions
]

-- ResolveVersion
unfoldable pub resolve_version : Text → List Text → Result Text
resolve_version text versions =
    let requested = trim_space text in
    let best = (best_patch (requested ++ codes ".") ([], none) versions).0 in
    if is_full_version requested
    then ok requested
    else if not (is_bare_minor requested)
    then err not_a_version
    else if text_eq best []
    then err no_released_patch
    else ok best

-- Client.ImageURL
unfoldable pub image_url : Text → Text → Text → Text → Text
image_url base id version arch =
    base
    ++ (codes "/image/"
        ++ (id ++ (codes "/" ++ (version ++ (codes "/metal-" ++ (arch ++ codes ".raw.zst"))))))

-- InstallerReference
pub record InstallerReference : Type 0 where
  pub host : Text
  pub id : Text
  pub tag : Text

abbrev pub is_hex : ℕ → Bool
is_hex c = is_digit c || (leb 97 c && leb c 102)

-- [0-9a-f]{64}, all of a text.
unfoldable pub is_schematic : Text → Bool
is_schematic s = length s == 64 && not (any (λ c. not (is_hex c)) s)

-- (?:@.*)?$
unfoldable pub is_digest : Text → Bool
is_digest [] = true
is_digest (c ∷ s) = c == b'@' && not (any (λ d. d == 10) s)

-- ([^@/]+), with what follows it.
unfoldable pub span_tag : Text → Text × Text
span_tag [] = ([], [])
span_tag (c ∷ s) =
    let (tag, rest) = span_tag s in if c == b'@' || c == b'/' then ([], c ∷ s) else (c ∷ tag, rest)

-- (?::([^@/]+))?(?:@.*)?$ : the tag.
unfoldable pub tag_of : Text → Option Text
unfolding is_digest span_tag
tag_of [] = some []
tag_of (c ∷ s) =
    let (tag, rest) = span_tag s in
    if c == b':'
    then (if not (text_eq tag []) && is_digest rest then some tag else none)
    else if is_digest (c ∷ s)
    then some []
    else none

-- ParseInstallerReference
unfoldable pub parse_installer_reference : Text → Option InstallerReference
unfolding tag_of is_schematic
parse_installer_reference text =
    let ref = trim_space text in
    let at_host = cut b'/' ref in
    let at_name = cut b'/' at_host.after in
    let id = take 64 at_name.after in
    if at_host.found
      && at_name.found
      && not (text_eq at_host.before [])
      && has_member (codes "metal-installer" ∷ codes "installer" ∷ []) at_name.before
      && is_schematic id
    then elim (tag_of (drop 64 at_name.after)) [
      | none ↦ none
      | some tag ↦ some (record { host = at_host.before; id = id; tag = tag })
    ]
    else none
