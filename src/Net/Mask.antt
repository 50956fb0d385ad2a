-- ===== src/Net/Mask.antt =====
-- pkg/talosnet/mapping.go: PrefixLength, and net.IPMask.Size, on which it rests. The package netip is
-- the parameter `parse_address`, which answers with the bytes of an address.
use actions.Prelude.{
  ℕ, zero, suc, ◌+◌, ◌-◌, ◌*◌, ◌%◌, ◌^◌, ◌≤◌, ◌<◌, ◌≡◌, refl, ap, ◌∙◌, Bool, false, not, ◌&&◌, ◌||◌,
  List, [], ◌∷◌, Option, none, some, Result, ok, err, ◌>>=◌, ◌>>◌, guard, or_err, empty_netmask,
  prefix_out_of_range, bad_netmask, wrong_family, not_contiguous, length, replicate, any, leb, ltb,
  ◌==◌, if◌then◌else◌, arith, Bool-cases, Option-cases, inl, inr,
}
use actions.Text.{Text, text_eq, trim_space}
use actions.Text.Numbers.{atoi}

-- The loop `for v&0x80 != 0 { n++; v <<= 1 }` on a byte: eight rounds empty it, so fuel 8 is enough.
unfoldable pub leading_ones : ℕ → ℕ → ℕ × ℕ
leading_ones zero v = (0, v)
leading_ones (suc fuel) v =
    let (n, w) = leading_ones fuel ((v * 2) % 256) in if leb 128 v then (n + 1, w) else (0, v)

-- simpleMaskLength: the ones that a mask starts with, none if another follows a zero.
unfoldable pub mask_length : List ℕ → Option ℕ
unfolding leading_ones
mask_length [] = some 0
mask_length (v ∷ mask) =
    let rest = mask_length mask in
    let (n, w) = leading_ones 8 v in
    if v == 255
    then elim rest [ none ↦ none | some m ↦ some (8 + m) ]
    else if not (w == 0) || any (λ b. not (b == 0)) mask
    then none
    else some n

-- maxBits
abbrev pub max_bits : ℕ → ℕ
max_bits family = if family == 6 then 128 else 32

-- strings.TrimPrefix(s, "/")
unfoldable pub trim_slash : Text → Text
trim_slash [] = []
trim_slash (c ∷ s) = if c == b'/' then s else c ∷ s

-- The range of a bare prefix length.
unfoldable pub check_prefix : ℕ → Bool × ℕ → Result ℕ
check_prefix limit (negative, n) =
    if (negative && not (n == 0)) || ltb limit n then err prefix_out_of_range else ok n

-- A mask written as an address; BitLen is eight times the bytes.
unfoldable pub mask_prefix : ℕ → List ℕ → Result ℕ
mask_prefix limit bytes = do
  guard (8 * length bytes == limit) wrong_family
  or_err (mask_length bytes) not_contiguous

-- PrefixLength
unfoldable pub prefix_length : (Text → Option (List ℕ)) → Text → ℕ → Result ℕ
prefix_length parse_address netmask family =
    let text = trim_slash (trim_space netmask) in
    if text_eq text [] then err empty_netmask else elim (atoi text) [
      | some n ↦ check_prefix (max_bits family) n
      | none ↦ or_err (parse_address text) bad_netmask >>= mask_prefix (max_bits family)
    ]

leading_ones_le : (fuel v : ℕ) → (leading_ones fuel v).0 ≤ fuel
unfolding leading_ones
leading_ones_le zero v = omega arith
leading_ones_le (suc fuel) v = ground (arith, leading_ones_le fuel ((v * 2) % 256))

pub mask_length_le : (mask : List ℕ) (n : ℕ) → mask_length mask ≡ some n → n ≤ 8 * length mask
unfolding mask_length
mask_length_le [] n = λ h. ground arith
mask_length_le (v ∷ mask) n = elim (Bool-cases (v == 255)) [
  | inl e ↦ elim (Option-cases (mask_length mask)) [
    | inl r ↦ rw (e, r) (λ h. cc)
    | inr (m, r) ↦ rw (e, r) (λ h. let le = mask_length_le mask m r in ground arith)
  ]
  | inr e ↦ rw e (λ h. let le = leading_ones_le 8 v in ground arith)
]

check_prefix_le : (limit n : ℕ) (v : Bool × ℕ) → check_prefix limit v ≡ ok n → n ≤ limit
unfolding check_prefix
check_prefix_le limit n (negative, m) h = ground arith

mask_prefix_le : (limit n : ℕ) (bytes : List ℕ) → mask_prefix limit bytes ≡ ok n → n ≤ limit
unfolding mask_prefix
mask_prefix_le limit n bytes h = elim (Bool-cases (8 * length bytes == limit)) [
  | inr e ↦ cc
  | inl e ↦ elim (Option-cases (mask_length bytes)) [
    | inl r ↦ cc
    | inr (m, r) ↦ let le = mask_length_le bytes m r in ground arith
  ]
]

-- A prefix length that PrefixLength returns is within the bits of the family, 32 or 128.
prefix_length_le :
    (parse_address : Text → Option (List ℕ)) (netmask : Text) (family n : ℕ)
    → prefix_length parse_address netmask family ≡ ok n
    → n ≤ max_bits family
prefix_length_le parse_address netmask family n =
    elim (Bool-cases (text_eq (trim_slash (trim_space netmask)) [])) [
      | inl e ↦ unfold prefix_length in rw e (λ h. cc)
      | inr e ↦ elim (Option-cases (atoi (trim_slash (trim_space netmask)))) [
        | inr (v, a) ↦ unfold prefix_length in rw (e, a) (check_prefix_le (max_bits family) n v)
        | inl a ↦ elim (Option-cases (parse_address (trim_slash (trim_space netmask)))) [
          | inl p ↦ unfold prefix_length in rw (e, a, p) (λ h. cc)
          | inr (bytes, p) ↦
              unfold prefix_length in rw (e, a, p) (mask_prefix_le (max_bits family) n bytes)
        ]
      ]
    ]

-- The mask of so many bytes with so many leading ones.
abbrev pub mask_of : ℕ → ℕ → List ℕ
mask_of zero n = []
mask_of (suc k) n =
    let rest = mask_of k (n - 8) in
    if leb 8 n then 255 ∷ rest else (256 - 2 ^ (8 - n)) ∷ replicate k 0

any-zeros : (k : ℕ) → any (λ b. not (b == 0)) (replicate k 0) ≡ false
any-zeros zero = refl
any-zeros (suc k) = any-zeros k

last_byte : (k n : ℕ) → n < 8 → mask_length ((256 - 2 ^ (8 - n)) ∷ replicate k 0) ≡ some n
unfolding mask_length leading_ones
last_byte k zero h = rw (any-zeros k) refl
last_byte k (suc zero) h = rw (any-zeros k) refl
last_byte k (suc (suc zero)) h = rw (any-zeros k) refl
last_byte k (suc (suc (suc zero))) h = rw (any-zeros k) refl
last_byte k (suc (suc (suc (suc zero)))) h = rw (any-zeros k) refl
last_byte k (suc (suc (suc (suc (suc zero))))) h = rw (any-zeros k) refl
last_byte k (suc (suc (suc (suc (suc (suc zero)))))) h = rw (any-zeros k) refl
last_byte k (suc (suc (suc (suc (suc (suc (suc zero))))))) h = rw (any-zeros k) refl
last_byte k (suc (suc (suc (suc (suc (suc (suc (suc n)))))))) h = ground arith

next_byte :
    (mask : List ℕ) (m : ℕ) → mask_length mask ≡ some m → mask_length (255 ∷ mask) ≡ some (8 + m)
unfolding mask_length
next_byte mask m h = rw h refl

-- Size reads back the number of leading ones of every contiguous mask.
mask_length-mask_of : (k n : ℕ) → n ≤ 8 * k → mask_length (mask_of k n) ≡ some n
mask_length-mask_of zero n h = unfold mask_length in ap some (omega arith)
mask_length-mask_of (suc k) n h = elim (Bool-cases (leb 8 n)) [
  | inl e ↦ rw e (
      next_byte (mask_of k (n - 8)) (n - 8) (mask_length-mask_of k (n - 8) (ground arith))
      ∙ ap some (ground arith))
  | inr e ↦ rw e (last_byte k n (ground arith))
]
