-- ===== src/Text/Members.antt =====
-- Which texts a list holds.
use actions.Prelude.{◌≡◌, refl, ◌||◌, List, [], ◌∷◌, ◌++◌, arith}
use actions.Text.{Text, has_member}

pub has_member-append :
    (xs ys : List Text) (t : Text) → has_member (xs ++ ys) t ≡ (has_member xs t || has_member ys t)
unfolding has_member
has_member-append [] ys t = refl
has_member-append (x ∷ xs) ys t = ground (arith, has_member-append xs ys t)
