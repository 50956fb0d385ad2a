-- ===== src/Prelude/Sort.antt =====
-- Insertion sort by a Boolean order: what sort.Strings and sort.Slice are used for. Go's sort is not
-- stable, which shows only among elements that the order does not tell apart.
use mathlib.Core.Path.{◌≡◌, subst}
use mathlib.Core.Bool.{Bool, true, false}
use mathlib.Core.Logic.{inl, inr}
use mathlib.Core.List.{List, [], ◌∷◌}
use actions.Prelude.Tests.{if◌then◌else◌, Bool-cases}
use actions.Prelude.Lists.{All, All-map, filter}

module _ {ℓ} {A : Type ℓ} (le : A → A → Bool) where
  unfoldable pub insert : A → List A → List A
  insert x [] = x ∷ []
  insert x (y ∷ ys) = if le x y then x ∷ y ∷ ys else y ∷ insert x ys

  unfoldable pub sort : List A → List A
  sort [] = []
  sort (x ∷ xs) = insert x (sort xs)

module _ {ℓ κ} {A : Type ℓ} (le : A → A → Bool) (P : A → Type κ) where
  All-insert : (x : A) (l : List A) → P x → All P l → All P (insert le x l)
  unfolding insert
  All-insert x [] h hs = (h, tt)
  All-insert x (y ∷ l) h (h0, hs) = elim (Bool-cases (le x y)) [
    | inl e ↦ rw e (h, (h0, hs))
    | inr e ↦ rw e (h0, All-insert x l h hs)
  ]

  pub All-sort : (l : List A) → All P l → All P (sort le l)
  unfolding sort
  All-sort [] h = tt
  All-sort (x ∷ l) (h0, h) = All-insert x (sort le l) h0 (All-sort l h)

module _ {ℓ κ} {A : Type ℓ} (le : A → A → Bool) (P : A → Type κ) where
  All-of_insert : (x : A) (l : List A) → All P (insert le x l) → P x × All P l
  unfolding insert
  All-of_insert x [] = λ h. (h.0, tt)
  All-of_insert x (y ∷ l) = elim (Bool-cases (le x y)) [
    | inl e ↦ rw e (λ h. (h.0, h.1))
    | inr e ↦ rw e (λ h. let (a, b) = All-of_insert x l h.1 in (a, (h.0, b)))
  ]

  pub All-of_sort : (l : List A) → All P (sort le l) → All P l
  unfolding sort
  All-of_sort [] h = tt
  All-of_sort (x ∷ l) h = let (a, b) = All-of_insert x (sort le l) h in (a, All-of_sort l b)

-- Each element is at most all that follow it.
abbrev pub IsSorted {ℓ} : {A : Type ℓ} → (A → A → Bool) → List A → Type 0
IsSorted le [] = Unit
IsSorted le (x ∷ l) = All (λ y. le x y ≡ true) l × IsSorted le l

module _ {ℓ} {A : Type ℓ} (le : A → A → Bool) (total : (a b : A) → le a b ≡ false → le b a ≡ true)
    (trans : (a b c : A) → le a b ≡ true → le b c ≡ true → le a c ≡ true) where
  above :
      (a b : A) (l : List A)
      → le a b ≡ true
      → All (λ y. le b y ≡ true) l
      → All (λ y. le a y ≡ true) l
  above a b [] h hs = tt
  above a b (y ∷ l) h (h0, hs) = (trans a b y h h0, above a b l h hs)

  insert-IsSorted : (x : A) (l : List A) → IsSorted le l → IsSorted le (insert le x l)
  unfolding insert
  insert-IsSorted x [] h = (tt, tt)
  insert-IsSorted x (y ∷ l) (h0, h) = elim (Bool-cases (le x y)) [
    | inl e ↦ rw e ((e, above x y l e h0), (h0, h))
    | inr e ↦ rw e (All-insert le (λ z. le y z ≡ true) x l (total x y e) h0, insert-IsSorted x l h)
  ]

  pub sort-IsSorted : (l : List A) → IsSorted le (sort le l)
  unfolding sort
  sort-IsSorted [] = tt
  sort-IsSorted (x ∷ l) = insert-IsSorted x (sort le l) (sort-IsSorted l)

  le_self : (a : A) → le a a ≡ true
  le_self a = elim (Bool-cases (le a a)) [ inl e ↦ e | inr e ↦ total a a e ]

  -- The first that a filter keeps of a sorted list is at most all that it keeps.
  pub first-filter_le :
      (p : A → Bool) (l : List A) (d : A) (ds : List A)
      → IsSorted le l
      → filter p l ≡ d ∷ ds
      → All (λ e. p e ≡ true → le d e ≡ true) l
  first-filter_le p [] d ds h = λ f. tt
  first-filter_le p (x ∷ l) d ds (h0, h) = elim (Bool-cases (p x)) [
    | inl e ↦ rw e (λ f.
        let same : x ≡ d = cc f in
        subst (λ z. (true ≡ true → le z x ≡ true) × All (λ e. p e ≡ true → le z e ≡ true) l) same
          ((λ _. le_self x), All-map (λ y q _. q) l h0))
    | inr e ↦ rw e (λ f. ((λ t. cc), first-filter_le p l d ds h f))
  ]
