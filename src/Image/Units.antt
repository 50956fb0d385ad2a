-- ===== src/Image/Units.antt =====
-- pkg/image/image.go: the units of pretty.
use actions.Prelude.{
  ap, ℕ, zero, suc, ◌+◌, ◌*◌, ◌/◌, ◌^◌, ◌≤◌, ◌<◌, ◌≡◌, some, leb, ltb, arith, Bool-cases, inl, inr,
  subst,
}
use actions.Image.{unit_of, pretty_unit}

-- 8 * 1024 ^ j
bound : ℕ → ℕ
bound zero = 8
bound (suc j) = 1024 * bound j

step_bound : (n b : ℕ) → n < 1024 * b → n / 1024 < b
step_bound n b h = omega arith

-- So many divisions as there are factors, and the divisor grows with them; what is left is below 1024.
unit_of_le : (fuel j n div exp : ℕ) → n < bound j → (unit_of fuel n div exp).1 ≤ exp + j
unfolding unit_of bound
unit_of_le zero j n div exp h = omega arith
unit_of_le (suc fuel) zero n div exp h = ground arith
unit_of_le (suc fuel) (suc j) n div exp h = elim (Bool-cases (leb 1024 n)) [
  | inr e ↦ rw e (omega arith)
  | inl e ↦ rw e (
      subst (λ m. (unit_of fuel (n / 1024) (div * 1024) (exp + 1)).1 ≤ m) (omega arith)
        (unit_of_le fuel j (n / 1024) (div * 1024) (exp + 1) (step_bound n (bound j) h)))
]

-- The letter of an int64 is one of the six of "KMGTPE": the index does not panic.
pub pretty_unit_lt : (b div exp : ℕ) → b < 2 ^ 63 → pretty_unit b ≡ some (div, exp) → exp < 6
unfolding pretty_unit bound
pretty_unit_lt b div exp h = elim (Bool-cases (ltb b 1024)) [
  | inl t ↦ rw t (λ e. cc)
  | inr t ↦ rw t (λ e.
      let same : unit_of 6 (b / 1024) 1024 0 ≡ (div, exp) = cc in
      let le : (unit_of 6 (b / 1024) 1024 0).1 ≤ 0 + 5 =
        unit_of_le 6 5 (b / 1024) 1024 0 (omega arith) in
      omega (arith, le, ap (λ z. z.1) same))
]
