-- ===== src/Text/Decimal.antt =====
-- strconv.Itoa, and reading its digits.
use actions.Prelude.{
  ℕ, zero, suc, ◌+◌, ◌*◌, ◌/◌, ◌%◌, ◌<◌, ◌≡◌, refl, sym, ap, ◌∙◌, [], ◌∷◌, some, arith, ltb,
  Bool-cases, inl, inr,
}
use actions.Text.{Text}
use actions.Text.Numbers.{read_digits, digits, itoa}

read_one : (m c : ℕ) (s : Text) → c < 10 → read_digits m ((48 + c) ∷ s) ≡ read_digits (m * 10 + c) s
unfolding read_digits
read_one m c s h = ground arith

read-digits :
    (fuel n : ℕ) (after : Text)
    → n < fuel
    → read_digits 0 (digits fuel n after) ≡ read_digits n after
unfolding digits
read-digits zero n after h = ground arith
read-digits (suc fuel) n after h = elim (Bool-cases (ltb n 10)) [
  | inl e ↦ rw e (read_one 0 n after (ground arith) ∙ ap (λ k. read_digits k after) (omega arith))
  | inr e ↦ rw e (
      read-digits fuel (n / 10) ((48 + n % 10) ∷ after) (ground arith)
      ∙ read_one (n / 10) (n % 10) after (omega arith)
      ∙ ap (λ k. read_digits k after) (omega arith))
]

-- The digits of a number are read as this number.
read_digits-itoa : (n : ℕ) → read_digits 0 (itoa n) ≡ some n
unfolding itoa
read_digits-itoa n = read-digits (suc n) n [] (omega arith) ∙ unfold read_digits in refl

-- Different numbers have different digits.
pub itoa_injective : (m n : ℕ) → itoa m ≡ itoa n → m ≡ n
itoa_injective m n h =
    let same : some m ≡ some n =
      sym (read_digits-itoa m) ∙ ap (read_digits 0) h ∙ read_digits-itoa n in
    cc
