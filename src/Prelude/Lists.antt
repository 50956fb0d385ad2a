-- ===== src/Prelude/Lists.antt =====
-- Lists measured by native numbers, Boolean filters and searches, and predicates on all members.
use Prim.Native.Nat.{ℕ, zero, suc, ◌+◌, ◌-◌, ◌≤◌, ◌<◌}
use mathlib.Core.Path.{◌≡◌, refl, sym, ap}
use mathlib.Core.Bool.{Bool, true, false, ◌||◌}
use mathlib.Core.List.{List, [], ◌∷◌, ◌++◌, Memᴰ}
use mathlib.Core.Option.{Option, none, some}
use native.Mathlib.Omega.{arith}
use native.Mathlib.Nat.{zero-add, suc-add}
use actions.Prelude.Tests.{if◌then◌else◌, Bool-cases}
use mathlib.Core.Logic.{◌⊎◌, inl, inr}

module _ {ℓ} {A : Type ℓ} where
  abbrev pub length : List A → ℕ
  length [] = 0
  length (x ∷ xs) = suc (length xs)

  abbrev pub get_elem? : List A → ℕ → Option A
  get_elem? [] i = none
  get_elem? (x ∷ xs) zero = some x
  get_elem? (x ∷ xs) (suc i) = get_elem? xs i

  abbrev pub take : ℕ → List A → List A
  take zero xs = []
  take (suc n) [] = []
  take (suc n) (x ∷ xs) = x ∷ take n xs

  abbrev pub drop : ℕ → List A → List A
  drop zero xs = xs
  drop (suc n) [] = []
  drop (suc n) (x ∷ xs) = drop n xs

  abbrev pub replicate : ℕ → A → List A
  replicate zero a = []
  replicate (suc n) a = a ∷ replicate n a

  pub length-append : (xs ys : List A) → length (xs ++ ys) ≡ length xs + length ys
  length-append [] ys = omega arith
  length-append (x ∷ xs) ys = omega (arith, length-append xs ys)

  pub length-replicate : (n : ℕ) (a : A) → length (replicate n a) ≡ n
  length-replicate zero a = refl
  length-replicate (suc n) a = ap suc (length-replicate n a)

  -- The members that pass a Boolean test, in order.
  abbrev pub filter : (A → Bool) → List A → List A
  filter p [] = []
  filter p (x ∷ xs) = if p x then x ∷ filter p xs else filter p xs

  abbrev pub any : (A → Bool) → List A → Bool
  any p [] = false
  any p (x ∷ xs) = p x || any p xs

  pub filter-append :
      (p : A → Bool) (xs ys : List A) → filter p (xs ++ ys) ≡ filter p xs ++ filter p ys
  filter-append p [] ys = refl
  filter-append p (x ∷ xs) ys = ground (arith, filter-append p xs ys)

  pub any-append : (p : A → Bool) (xs ys : List A) → any p (xs ++ ys) ≡ (any p xs || any p ys)
  any-append p [] ys = refl
  any-append p (x ∷ xs) ys = ground (arith, any-append p xs ys)

module _ {ℓ κ} {A : Type ℓ} (P : A → Type κ) where
  abbrev pub All : List A → Type κ
  All [] = Unit
  All (x ∷ xs) = P x × All xs

  pub All-append : (xs ys : List A) → All xs → All ys → All (xs ++ ys)
  All-append [] ys _ hy = hy
  All-append (x ∷ xs) ys (px, hx) hy = (px, All-append xs ys hx hy)

module _ {ℓ} {A : Type ℓ} where
  pub drop-append_of : (n : ℕ) (xs ys : List A) → length xs ≡ n → drop n (xs ++ ys) ≡ ys
  drop-append_of zero [] ys h = refl
  drop-append_of zero (x ∷ xs) ys h = absurd (omega arith)
  drop-append_of (suc n) [] ys h = absurd (omega arith)
  drop-append_of (suc n) (x ∷ xs) ys h = drop-append_of n xs ys (omega arith)

  pub take-append_of : (n : ℕ) (xs ys : List A) → length xs ≡ n → take n (xs ++ ys) ≡ xs
  take-append_of zero [] ys h = refl
  take-append_of zero (x ∷ xs) ys h = absurd (omega arith)
  take-append_of (suc n) [] ys h = absurd (omega arith)
  take-append_of (suc n) (x ∷ xs) ys h = ap (◌∷◌ x) (take-append_of n xs ys (omega arith))

  pub take-drop : (n : ℕ) (xs : List A) → take n xs ++ drop n xs ≡ xs
  take-drop zero xs = refl
  take-drop (suc n) [] = refl
  take-drop (suc n) (x ∷ xs) = ap (◌∷◌ x) (take-drop n xs)

  pub length-take_le : (n : ℕ) (xs : List A) → n ≤ length xs → length (take n xs) ≡ n
  length-take_le zero xs h = refl
  length-take_le (suc n) [] h = absurd (omega arith)
  length-take_le (suc n) (x ∷ xs) h = ap suc (length-take_le n xs (omega arith))

  pub length-drop : (n : ℕ) (xs : List A) → length (drop n xs) ≡ length xs - n
  length-drop zero xs = omega arith
  length-drop (suc n) [] = omega arith
  length-drop (suc n) (x ∷ xs) = omega (arith, length-drop n xs)

  pub lt-length_of_get : (xs : List A) (n : ℕ) (x : A) → get_elem? xs n ≡ some x → n < length xs
  lt-length_of_get [] n x h = absurd (cc h)
  lt-length_of_get (y ∷ xs) zero x h = omega arith
  lt-length_of_get (y ∷ xs) (suc n) x h = omega (arith, lt-length_of_get xs n x h)

  pub get_elem?-drop : (xs : List A) (n k : ℕ) → get_elem? (drop n xs) k ≡ get_elem? xs (n + k)
  get_elem?-drop xs zero k = ap (get_elem? xs) (sym (zero-add k))
  get_elem?-drop [] (suc n) k = refl
  get_elem?-drop (x ∷ xs) (suc n) k = rw (suc-add n k) (get_elem?-drop xs n k)

pub All-map {ℓ κ μ} :
    {A : Type ℓ} {P : A → Type κ} {Q : A → Type μ}
    → ((a : A) → P a → Q a)
    → (l : List A) → All P l
    → All Q l
All-map f [] h = tt
All-map f (x ∷ l) (h0, h) = (f x h0, All-map f l h)

module _ {ℓ} {A : Type ℓ} where
  pub All-Mem : (l : List A) → All (λ a. Memᴰ a l) l
  All-Mem [] = tt
  All-Mem (x ∷ l) = (Memᴰ.head refl, All-map (λ a m. Memᴰ.tail m) l (All-Mem l))

  pub All-filter {κ} :
      (P : A → Type κ) (p : A → Bool) (l : List A)
      → All P l
      → All (λ a. P a × (p a ≡ true)) (filter p l)
  All-filter P p [] h = tt
  All-filter P p (x ∷ l) (h0, h) = elim (Bool-cases (p x)) [
    | inl e ↦ rw e ((h0, e), All-filter P p l h)
    | inr e ↦ rw e (All-filter P p l h)
  ]

  pub filter-eq_nil : (p : A → Bool) (l : List A) → filter p l ≡ [] → All (λ a. p a ≡ false) l
  filter-eq_nil p [] = λ h. tt
  filter-eq_nil p (x ∷ l) = elim (Bool-cases (p x)) [
    | inl e ↦ rw e (λ h. cc)
    | inr e ↦ rw e (λ h. (refl, filter-eq_nil p l h))
  ]

  -- A search by a Boolean test finds a member, or all members fail it.
  pub any-cases :
      (p : A → Bool) (l : List A)
      → ((any p l ≡ true) × ((x : A) × Memᴰ x l × (p x ≡ true)))
        ⊎ ((any p l ≡ false) × All (λ x. p x ≡ false) l)
  any-cases p [] = inr (refl, tt)
  any-cases p (x ∷ l) = elim (Bool-cases (p x)) [
    | inl e ↦ rw e (inl (refl, (x, Memᴰ.head refl, e)))
    | inr e ↦ elim (any-cases p l) [
      | inl (h, (y, m, t)) ↦ rw e (inl (h, (y, Memᴰ.tail m, t)))
      | inr (h, all) ↦ rw e (inr (h, (refl, all)))
    ]
  ]
