-- ===== src/Factory/Tests.antt =====
-- Versions and references of the Image Factory.
use actions.Text.Numbers.{atoi}
use actions.Prelude.{ℕ, ◌≡◌, refl, ◌⊎◌, true, List, [], ◌∷◌, ◌++◌, some, ok, All, Memᴰ}
use actions.Text.{Text, codes, trim_space, text_eq}
use actions.Factory.{
  resolve_version, is_full_version, is_bare_minor, patch_of, tag_of, best_patch, skip_minor,
}
use actions.Factory.Resolved.{AtMost, resolve_version_lem}

abbrev served : List Text
served = codes "v1.14.2" ∷ codes "v1.14.10" ∷ codes "v1.14.11-beta.0" ∷ codes "v1.15.0" ∷ []

served_runs : resolve_version (codes " v1.14") served ≡ ok (codes "v1.14.10")
unfolding resolve_version is_full_version skip_minor trim_space is_bare_minor text_eq best_patch
    patch_of atoi
served_runs = refl

full_runs : is_full_version (codes "v1.14.2-beta.0") ≡ true
unfolding is_full_version skip_minor text_eq
full_runs = refl

-- A sign is a part of a number for Atoi: a version with one is taken, though it is not a full version.
sign_runs : resolve_version (codes "v1.14") (codes "v1.14.+5" ∷ []) ≡ ok (codes "v1.14.+5")
unfolding resolve_version is_full_version skip_minor trim_space is_bare_minor text_eq best_patch
    patch_of atoi
sign_runs = refl

tag_runs : tag_of (codes ":v1.14.2@sha256:00") ≡ some (codes "v1.14.2")
unfolding tag_of text_eq
tag_runs = refl

resolve_version_lem_example :
    ((is_full_version (trim_space (codes " v1.14")) ≡ true)
      × (codes "v1.14.10" ≡ trim_space (codes " v1.14")))
    ⊎ ((is_bare_minor (trim_space (codes " v1.14")) ≡ true)
        × (Memᴰ (codes "v1.14.10") served
            × ((n : ℕ) × (patch_of (trim_space (codes " v1.14") ++ codes ".") (codes "v1.14.10")
                  ≡ some n)
                × All
                    (λ w. AtMost (patch_of (trim_space (codes " v1.14") ++ codes ".") w) (some n))
                    served)))
resolve_version_lem_example =
    resolve_version_lem (codes " v1.14") served (codes "v1.14.10") served_runs
