-- ===== src/Partition/Parsed.antt =====
-- pkg/partition/node.go: the numbers that are read in sysfs.
use actions.Prelude.{
  ℕ, ◌^◌, ◌<◌, ◌≡◌, ap, subst, true, [], ◌∷◌, ◌++◌, Option, none, some, ok, or_err, guard, on_ok,
  ok-injective, or_err-ok, guard-ok, ltb, ◌==◌, arith, Bool-cases, inl, inr, bad_dev_numbers,
  bad_major, bad_minor,
}
use actions.Text.{Text, cut}
use actions.Text.Numbers.{parse_uint, in_bits, read_nat}
use actions.Partition.Node.{parse_numbers}

cut_found :
    (sep : ℕ) (s : Text)
    → (cut sep s).found ≡ true
    → s ≡ (cut sep s).before ++ sep ∷ (cut sep s).after
unfolding cut
cut_found sep [] = λ h. cc
cut_found sep (c ∷ s) = elim (Bool-cases (c == sep)) [
  | inl e ↦ rw e (λ h. ap (λ z. z ∷ s) (ground arith))
  | inr e ↦ rw e (λ h. ap (◌∷◌ c) (cut_found sep s h))
]

-- A text reads as these two numbers, each below 2^32, with a colon between them.
abbrev pub ReadsAs : Text → ℕ → ℕ → Type 0
ReadsAs text major minor =
    (a : Text) × (b : Text) × (text ≡ a ++ b':' ∷ b)
    × (read_nat a ≡ some major)
    × (read_nat b ≡ some minor)
    × (major < 2 ^ 32)
    × (minor < 2 ^ 32)

in_bits_lem :
    (bits : ℕ) (o : Option ℕ) (n : ℕ) → in_bits bits o ≡ some n → (o ≡ some n) × (n < 2 ^ bits)
unfolding in_bits
in_bits_lem bits none n = λ h. cc
in_bits_lem bits (some k) n = elim (Bool-cases (ltb k (2 ^ bits))) [
  | inl t ↦
      rw t (λ h.
        let same : k ≡ n = cc in (ap some same, subst (λ z. z < 2 ^ bits) same (ground arith)))
  | inr t ↦ rw t (λ h. cc)
]

parse_uint_lem :
    (bits : ℕ) (s : Text) (n : ℕ)
    → parse_uint bits s ≡ some n
    → (read_nat s ≡ some n) × (n < 2 ^ bits)
unfolding parse_uint
parse_uint_lem bits s n h = in_bits_lem bits (read_nat s) n h

pub parse_numbers-ReadsAs :
    (text : Text) (n : ℕ × ℕ) → parse_numbers text ≡ ok n → ReadsAs text n.0 n.1
unfolding parse_numbers
parse_numbers-ReadsAs text n h =
    on_ok (guard (cut b':' text).found bad_dev_numbers) _ h (λ u found h1.
      on_ok (or_err (parse_uint 32 (cut b':' text).before) bad_major) _ h1 (λ major hmaj h2.
        on_ok (or_err (parse_uint 32 (cut b':' text).after) bad_minor) _ h2 (λ minor hmin h3.
          let (read1, lt1) = parse_uint_lem 32 _ major (or_err-ok _ bad_major major hmaj) in
          let (read2, lt2) = parse_uint_lem 32 _ minor (or_err-ok _ bad_minor minor hmin) in
          subst (λ z. ReadsAs text z.0 z.1) (ok-injective h3)
            (
              (cut b':' text).before,
              (cut b':' text).after,
              cut_found b':' text (guard-ok _ bad_dev_numbers u found),
              read1,
              read2,
              lt1,
              lt2,
            ))))
