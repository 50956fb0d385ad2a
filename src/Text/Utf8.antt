-- ===== src/Text/Utf8.antt =====
-- What the program uses of the package bytes on text in UTF-8: bytes.TrimSpace.
use mathlib.Core.List.{reverse}
use actions.Prelude.{ℕ, zero, suc, ◌-◌, Bool, ◌&&◌, ◌||◌, List, [], ◌∷◌, leb, ◌==◌, if◌then◌else◌}

-- White space of one, two and three bytes.
abbrev space1 : ℕ → Bool
space1 a = (leb 9 a && leb a 13) || a == 32

abbrev space2 : ℕ → ℕ → Bool
space2 a b = a == 0xc2 && (b == 0x85 || b == 0xa0)

abbrev space3 : ℕ → ℕ → ℕ → Bool
space3 a b c =
    (a == 0xe1 && b == 0x9a && c == 0x80)
    || (a == 0xe2
        && b == 0x80
        && ((leb 0x80 c && leb c 0x8a) || c == 0xa8 || c == 0xa9 || c == 0xaf))
    || (a == 0xe2 && b == 0x81 && c == 0x9f)
    || (a == 0xe3 && b == 0x80 && c == 0x80)

-- How many bytes the white space has that these bytes start with, zero where there is none.
unfoldable first_width : List ℕ → ℕ
first_width [] = 0
first_width (a ∷ []) = if space1 a then 1 else 0
first_width (a ∷ b ∷ []) = if space1 a then 1 else if space2 a b then 2 else 0
first_width (a ∷ b ∷ c ∷ s) =
    if space1 a then 1 else if space2 a b then 2 else if space3 a b c then 3 else 0

-- The same at their end, for bytes in the reverse order.
unfoldable last_width : List ℕ → ℕ
last_width [] = 0
last_width (c ∷ []) = if space1 c then 1 else 0
last_width (c ∷ b ∷ []) = if space1 c then 1 else if space2 b c then 2 else 0
last_width (c ∷ b ∷ a ∷ s) =
    if space1 c then 1 else if space2 b c then 2 else if space3 a b c then 3 else 0

-- The bytes without the white space at their start, by its width, after so many bytes to leave out.
unfoldable trim_runes : (List ℕ → ℕ) → ℕ → List ℕ → List ℕ
trim_runes width n [] = []
trim_runes width (suc n) (c ∷ s) = trim_runes width n s
trim_runes width zero (c ∷ s) =
    let rest = trim_runes width (width (c ∷ s) - 1) s in if width (c ∷ s) == 0 then c ∷ s else rest

-- bytes.TrimSpace
unfoldable pub trim_space_bytes : List ℕ → List ℕ
unfolding trim_runes first_width last_width
trim_space_bytes s = reverse (trim_runes last_width 0 (reverse (trim_runes first_width 0 s)))
