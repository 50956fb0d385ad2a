-- ===== src/Text/Numbers.antt =====
-- strconv: decimal numbers. Atoi answers with an int, here a sign and a magnitude.
use actions.Prelude.{
  ℕ, zero, suc, ◌+◌, ◌-◌, ◌*◌, ◌/◌, ◌%◌, ◌^◌, Bool, true, false, ◌&&◌, ◌||◌, [], ◌∷◌, Option, none,
  some, leb, ltb, ◌==◌, if◌then◌else◌,
}
use actions.Text.{Text}

abbrev pub is_digit : ℕ → Bool
is_digit c = leb 48 c && leb c 57

-- The value of a text of digits after what has been read.
unfoldable pub read_digits : ℕ → Text → Option ℕ
read_digits n [] = some n
read_digits n (c ∷ s) =
    let rest = read_digits (n * 10 + (c - 48)) s in if is_digit c then rest else none

-- A number of at least one digit.
unfoldable pub read_nat : Text → Option ℕ
unfolding read_digits
read_nat [] = none
read_nat (c ∷ s) = read_digits 0 (c ∷ s)

-- A number of at most so many bits.
unfoldable pub in_bits : ℕ → Option ℕ → Option ℕ
in_bits bits none = none
in_bits bits (some n) = if ltb n (2 ^ bits) then some n else none

-- strconv.ParseUint(s, 10, bits)
unfoldable pub parse_uint : ℕ → Text → Option ℕ
unfolding in_bits
parse_uint bits s = in_bits bits (read_nat s)

-- The magnitude of an int: below 2^63, or that for the least.
in_int : Bool → Option ℕ → Option (Bool × ℕ)
in_int negative none = none
in_int negative (some n) =
    if ltb n (2 ^ 63) || (negative && n == 2 ^ 63) then some (negative, n) else none

-- strconv.Atoi
unfoldable pub atoi : Text → Option (Bool × ℕ)
unfolding in_int read_nat
atoi [] = none
atoi (c ∷ s) =
    if c == b'-'
    then in_int true (read_nat s)
    else if c == b'+'
    then in_int false (read_nat s)
    else in_int false (read_nat (c ∷ s))

-- The digits of a number before what follows; every round divides by ten, so fuel n is enough.
unfoldable pub digits : ℕ → ℕ → Text → Text
digits zero n after = after
digits (suc fuel) n after =
    let more = digits fuel (n / 10) ((48 + n % 10) ∷ after) in
    if ltb n 10 then (48 + n) ∷ after else more

-- strconv.Itoa of a number that is not negative.
unfoldable pub itoa : ℕ → Text
unfolding digits
itoa n = digits (suc n) n []
