-- ===== src/Uki/Align.antt =====
-- pkg/uki/uki.go: align.
use Prim.Native.Nat.{min, bit_and, digits, bit_and-bitwise}
use actions.Prelude.{ℕ, zero, suc, ◌+◌, ◌-◌, ◌*◌, ◌/◌, ◌%◌, ◌^◌, ◌≤◌, ◌<◌, ◌≡◌, sym, ap, ◌∙◌, arith}
use native.Mathlib.Nat.{
  two-pow-succ, zero-mod, mod-add-div', add-mul-mod_self_right, mod-eq_of_lt, mod-lt, mul-mod_left,
}
use actions.Uki.{u64, align}

mod_double : (x m : ℕ) → 0 < m → x % (m + m) ≡ (x / 2 % m) * 2 + x % 2
mod_double x m h =
    let q = x / 2 / m in
    let r = (x / 2 % m) * 2 + x % 2 in
    let e : x ≡ r + q * (m + m) = omega (arith, mod-add-div' (x / 2) m) in
    ap (λ t. t % (m + m)) e
    ∙ add-mul-mod_self_right r q (m + m)
    ∙ mod-eq_of_lt (omega (arith, mod-lt (x / 2) h))

pub pow_pos : (k : ℕ) → 0 < 2 ^ k
pow_pos zero = omega arith
pow_pos (suc k) = omega (arith, two-pow-succ k, pow_pos k)

half_mask : (k : ℕ) → (2 ^ suc k - 1) / 2 ≡ 2 ^ k - 1
half_mask k = omega (arith, two-pow-succ k, pow_pos k)

odd_mask : (k : ℕ) → (2 ^ suc k - 1) % 2 ≡ 1
odd_mask k = omega (arith, two-pow-succ k, pow_pos k)

mask_digits : (n k x : ℕ) → x ≤ n → digits (λ b. zero) min n x (2 ^ k - 1) ≡ x % 2 ^ k
mask_digits zero k zero h = sym (zero-mod (2 ^ k))
mask_digits zero k (suc x) h = absurd (omega arith)
mask_digits (suc n) k zero h = sym (zero-mod (2 ^ k))
mask_digits (suc n) zero (suc x) h = omega (arith, mask_digits n zero (suc x / 2) (omega arith))
mask_digits (suc n) (suc k) (suc x) h =
    rw (half_mask k, odd_mask k, mask_digits n k (suc x / 2) (omega arith), two-pow-succ k)
      (omega (arith, mod_double (suc x) (2 ^ k) (pow_pos k)))

-- A mask of ones keeps the remainder.
bit_and_mask : (x k : ℕ) → bit_and x (2 ^ k - 1) ≡ x % 2 ^ k
bit_and_mask x k = bit_and-bitwise x (2 ^ k - 1) ∙ mask_digits x k x (omega arith)

-- Below the end of uint64, aligning to a power of two rounds up to the next multiple of it.
align-eq : (v k : ℕ) → v + 2 ^ k ≤ 2 ^ 64 → align v (2 ^ k) ≡ (v + (2 ^ k - 1)) / 2 ^ k * 2 ^ k
unfolding align
align-eq v k fits =
    let mask : u64 (2 ^ k + 2 ^ 64 - 1) ≡ 2 ^ k - 1 = omega (arith, pow_pos k) in
    let sum : u64 (v + 2 ^ k + 2 ^ 64 - 1) ≡ v + (2 ^ k - 1) = omega (arith, pow_pos k) in
    rw (mask, sum, bit_and_mask (v + (2 ^ k - 1)) k)
      (omega (arith, mod-add-div' (v + (2 ^ k - 1)) (2 ^ k)))

-- An alignment is a power of two.
abbrev pub IsPower : ℕ → Type 0
IsPower a = (k : ℕ) × (a ≡ 2 ^ k)

module _ (v a : ℕ) (power : IsPower a) (fits : v + a ≤ 2 ^ 64) where
  pub le-align : v ≤ align v a
  le-align =
      let (k, e) = power in
      rw e (
        omega (
          arith,
          align-eq v k (rw (← e) fits),
          mod-add-div' (v + (2 ^ k - 1)) (2 ^ k),
          mod-lt (v + (2 ^ k - 1)) (pow_pos k),
        ))

  pub align-lt : align v a < v + a
  align-lt =
      let (k, e) = power in
      rw e (
        omega
          (arith, align-eq v k (rw (← e) fits), mod-add-div' (v + (2 ^ k - 1)) (2 ^ k), pow_pos k))

  pub align-mod : align v a % a ≡ 0
  align-mod =
      let (k, e) = power in
      rw (e, align-eq v k (rw (← e) fits)) (mul-mod_left ((v + (2 ^ k - 1)) / 2 ^ k) (2 ^ k))

-- At a power of two, align rounds up to a multiple of it, and to the nearest: nothing wraps as long
-- as the sum of the value and the alignment is within uint64.
pub align_rounds_up :
    (v a : ℕ)
    → IsPower a
    → v + a ≤ 2 ^ 64
    → (v ≤ align v a) × (align v a < v + a) × (align v a % a ≡ 0)
align_rounds_up v a power fits =
    (le-align v a power fits, align-lt v a power fits, align-mod v a power fits)
