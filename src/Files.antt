-- ===== src/Files.antt =====
-- Files by path, and the faults that the operating system may answer with.
use actions.Prelude.{ℕ, List, ◌≡◌, ◌≢◌, Bool, Option, arith, if◌then◌else◌}
use actions.Text.{Text, text_eq, text_eq_iff, text_eq_refl}

abbrev pub Files : Type 0
Files = Text → Option (List ℕ)

-- The files after `path` is given new contents, or removed.
unfoldable pub update : Files → Text → Option (List ℕ) → Files
update files path contents q = if text_eq q path then contents else files q

pub update_self : (files : Files) (path : Text) (c : Option (List ℕ)) → update files path c path ≡ c
unfolding update
update_self files path c = rw text_eq_refl

pub update_ne :
    (files : Files) (path : Text) (c : Option (List ℕ)) (q : Text)
    → q ≢ path
    → update files path c q ≡ files q
unfolding update
update_ne files path c q ne = ground (arith, text_eq_iff q path)

-- Which steps of replacing a file fail.
pub record Faults : Type 0 where
  pub create : Bool
  pub write : Bool
  pub sync : Bool
  pub close : Bool
  pub rename : Bool
