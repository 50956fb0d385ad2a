-- ===== src/Partition/Names.antt =====
-- pkg/partition/partition.go: the names and the numbers of partitions.
use mathlib.Core.Path.{ap₂}
use actions.Prelude.{
  ℕ, ◌≡◌, ◌≢◌, refl, sym, ap, ◌∙◌, length, length-append, take, take-append_of, append-nil, drop,
  List, [], ◌∷◌, Option, none, some, ok, ◌<◌, ◌+◌, ◌/◌, ◌%◌, zero, suc, ltb, Bool, true, false, any,
  All, ◌++◌, arith, Bool-cases, inl, inr, ◌⊎◌, if◌then◌else◌, ◌==◌, subst, ok-injective,
}
use actions.Text.{Text, codes, text_eq, contains, trim_right}
use actions.Text.Decimal.{itoa_injective}
use actions.Text.Numbers.{is_digit, digits, itoa}
use actions.Partition.{
  device, device_prefix, ends_in_digit, last_part, base_name, by_dirs, GptEntry, Partition,
  find_label, Table, locate, gpt, other_table,
}

abbrev IsDigit : ℕ → Type 0
IsDigit c = is_digit c ≡ true

digits-IsDigit : (fuel n : ℕ) (after : Text) → All IsDigit after → All IsDigit (digits fuel n after)
unfolding digits
digits-IsDigit zero n after h = h
digits-IsDigit (suc fuel) n after h = elim (Bool-cases (ltb n 10)) [
  | inl e ↦ rw e ((ground arith), h)
  | inr e ↦ rw e (digits-IsDigit fuel (n / 10) ((48 + n % 10) ∷ after) ((ground arith), h))
]

itoa-IsDigit : (n : ℕ) → All IsDigit (itoa n)
unfolding itoa
itoa-IsDigit n = digits-IsDigit (suc n) n [] tt

-- The end of a text decides.
ends_in_digit-append :
    (s : Text) (c : ℕ) (t : Text) → ends_in_digit (s ++ c ∷ t) ≡ ends_in_digit (c ∷ t)
unfolding ends_in_digit
ends_in_digit-append [] c t = refl
ends_in_digit-append (x ∷ []) c t = refl
ends_in_digit-append (x ∷ y ∷ s) c t = ends_in_digit-append (y ∷ s) c t

ends_in_digit-tail : (c : ℕ) (s : Text) → ends_in_digit (c ∷ s) ≡ false → ends_in_digit s ≡ false
unfolding ends_in_digit
ends_in_digit-tail c [] h = refl
ends_in_digit-tail c (d ∷ s) h = h

digits_end : (c : ℕ) (s t : Text) → All IsDigit (c ∷ s ++ t) → ends_in_digit (c ∷ s) ≡ true
unfolding ends_in_digit
digits_end c [] t (h0, h) = h0
digits_end c (d ∷ s) t (h0, h) = digits_end d s t h

not_both : true ≡ false → ⊥
not_both h = cc

-- A text and the digits after it are told apart where the text does not end in a digit itself.
split_digits :
    (xs ys a b : Text)
    → ends_in_digit xs ≡ false
    → ends_in_digit ys ≡ false
    → All IsDigit a
    → All IsDigit b
    → xs ++ a ≡ ys ++ b
    → (xs ≡ ys) × (a ≡ b)
split_digits [] [] a b x y ha hb h = (refl, h)
split_digits [] (c ∷ ys) a b x y ha hb h =
    absurd (not_both (sym (digits_end c ys b (subst (All IsDigit) h ha)) ∙ y))
split_digits (c ∷ xs) [] a b x y ha hb h =
    absurd (not_both (sym (digits_end c xs a (subst (All IsDigit) (sym h) hb)) ∙ x))
split_digits (c ∷ xs) (d ∷ ys) a b x y ha hb h =
    let (head, tail) =
      split_digits xs ys a b (ends_in_digit-tail c xs x) (ends_in_digit-tail d ys y) ha hb
        (ap (drop 1) h) in
    let first : c ≡ d = cc h in (cc, tail)

-- The last part of a path that ends in a digit ends in it.
last_part-ends :
    (seen s : Text)
    → ends_in_digit seen ≡ true
    → ends_in_digit s ≡ true
    → ends_in_digit (last_part seen s) ≡ true
unfolding last_part ends_in_digit
last_part-ends seen [] h e = h
last_part-ends seen (c ∷ []) h e = elim (Bool-cases (c == b'/')) [
  | inl t ↦ ground (arith, e, t)
  | inr t ↦ rw t h
]
last_part-ends seen (c ∷ d ∷ s) h e = elim (Bool-cases (c == b'/')) [
  | inl t ↦ rw t (last_part-ends (d ∷ s) (d ∷ s) e e)
  | inr t ↦ rw t (last_part-ends seen (d ∷ s) h e)
]

trim_slashes : (s : Text) → ends_in_digit s ≡ true → trim_right (λ c. c == b'/') s ≡ s
unfolding trim_right ends_in_digit
trim_slashes [] h = refl
trim_slashes (c ∷ []) h = let other : (c == b'/') ≡ false = ground (arith, h) in rw other refl
trim_slashes (c ∷ d ∷ s) h = rw (trim_slashes (d ∷ s) h) refl

base_name-ends : (s : Text) → ends_in_digit s ≡ true → ends_in_digit (base_name s) ≡ true
unfolding base_name
base_name-ends [] h = unfold ends_in_digit in cc
base_name-ends (c ∷ s) h =
    rw (trim_slashes (c ∷ s) h) (unfold text_eq in last_part-ends (c ∷ s) (c ∷ s) h h)

-- What stands before the number of a partition does not end in a digit.
device_prefix-ends : (disk : Text) → ends_in_digit (device_prefix disk) ≡ false
unfolding device_prefix
device_prefix-ends disk = elim (Bool-cases (any (contains disk) by_dirs)) [
  | inl b ↦ rw b (ends_in_digit-append disk b'-' (codes "part") ∙ unfold ends_in_digit in refl)
  | inr b ↦ elim (Bool-cases (ends_in_digit (base_name disk))) [
    | inl n ↦ rw (b, n) (ends_in_digit-append disk b'p' [] ∙ unfold ends_in_digit in refl)
    | inr n ↦
        rw (b, n)
          (elim (Bool-cases (ends_in_digit disk)) [
            | inl d ↦ absurd (not_both (sym (base_name-ends disk d) ∙ n))
            | inr d ↦ d
          ])
  ]
]

append_same : (xs ys a : Text) → xs ++ a ≡ ys ++ a → xs ≡ ys
append_same xs ys a h =
    let size : length xs ≡ length ys =
      omega (arith, length-append xs a, length-append ys a, ap length h) in
    sym (take-append_of (length ys) xs a size)
    ∙ ap (take (length ys)) h
    ∙ take-append_of (length ys) ys a refl

-- What stands between the name of a disk and the number, by the two tests of Device.
abbrev separator : Bool → Bool → Text
separator true ends = codes "-part"
separator false true = codes "p"
separator false false = []

device_prefix-separator :
    (disk : Text)
    → device_prefix disk
      ≡ disk ++ separator (any (contains disk) by_dirs) (ends_in_digit (base_name disk))
unfolding device_prefix
device_prefix-separator disk = elim (Bool-cases (any (contains disk) by_dirs)) [
  | inl b ↦ rw b refl
  | inr b ↦ elim (Bool-cases (ends_in_digit (base_name disk))) [
    | inl n ↦ rw (b, n) refl
    | inr n ↦ rw (b, n) (sym (append-nil disk))
  ]
]

-- A node tells its disk and the number.
device_told :
    (disk disk' : Text) (i j : ℕ)
    → any (contains disk) by_dirs ≡ any (contains disk') by_dirs
    → ends_in_digit (base_name disk) ≡ ends_in_digit (base_name disk')
    → device disk i ≡ device disk' j
    → (disk ≡ disk') × (i ≡ j)
unfolding device
device_told disk disk' i j links ends h =
    let (prefixes, numbers) =
      split_digits (device_prefix disk) (device_prefix disk') (itoa i) (itoa j)
        (device_prefix-ends disk) (device_prefix-ends disk') (itoa-IsDigit i) (itoa-IsDigit j) h in
    let between = separator (any (contains disk) by_dirs) (ends_in_digit (base_name disk)) in
    let same : disk ++ between ≡ disk' ++ between =
      sym (device_prefix-separator disk)
      ∙ prefixes
      ∙ device_prefix-separator disk'
      ∙ ap (λ t. disk' ++ t) (sym (ap₂ separator links ends)) in
    (append_same disk disk' between same, itoa_injective i j numbers)

-- Different partitions have different device nodes, on one disk and on different disks, as long as both
-- disks or neither are named by a stable link, and the last parts of both names or of neither end in a
-- digit.
pub device_injective :
    (disk disk' : Text) (i j : ℕ)
    → any (contains disk) by_dirs ≡ any (contains disk') by_dirs
    → ends_in_digit (base_name disk) ≡ ends_in_digit (base_name disk')
    → (disk ≢ disk') ⊎ (i ≢ j)
    → device disk i ≢ device disk' j
device_injective disk disk' i j links ends (inl ne) h =
    ne (device_told disk disk' i j links ends h).0
device_injective disk disk' i j links ends (inr ne) h =
    ne (device_told disk disk' i j links ends h).1

find_label_first :
    (label : Text) (sector i : ℕ) (entries : List (Option GptEntry)) (p : Partition)
    → find_label label sector i entries ≡ ok p
    → 0 < p.index
unfolding find_label
find_label_first label sector i [] p = λ h. cc
find_label_first label sector i (none ∷ entries) p = find_label_first label sector (i + 1) entries p
find_label_first label sector i (some e ∷ entries) p = elim (Bool-cases (text_eq e.name label)) [
  | inr t ↦ rw t (find_label_first label sector (i + 1) entries p)
  | inl t ↦ rw t (λ h. subst (λ z. 0 < z.index) (ok-injective h) (positive e.index i))
]
  where
    positive : (n i : ℕ) → 0 < (if n == 0 then i + 1 else n)
    positive n i = ground arith

-- The number of a partition that Locate finds is at least one, as the kernel numbers partitions.
locate_index :
    (table : Option Table) (label : Text) (p : Partition) → locate table label ≡ ok p → 0 < p.index
unfolding locate
locate_index none label p h = cc
locate_index (some other_table) label p h = cc
locate_index (some (gpt sector entries block)) label p h =
    find_label_first label (if sector == 0 then block else sector) 0 entries p h
