-- ===== src/Uki/Indexes.antt =====
-- pkg/uki/uki.go: the indexes of the .cmdline sections, and the new contents by index.
use mathlib.Core.Option.{some-injective}
use native.Mathlib.Nat.{add-zero}
use actions.Prelude.{
  ℕ, zero, suc, ◌+◌, ◌≤◌, ◌≡◌, refl, ap, subst, List, [], ◌∷◌, some, ok, >>=-ok, arith, length,
  drop, get_elem?, Bool-cases, inl, inr, All,
}
use actions.Text.{text_eq}
use actions.Uki.{Bytes, SectionHeader, find_cmdlines, section_name}
use actions.Uki.Write.{NewData, find_data, new_data, resize, resize_from}

-- An ascending list of indexes from `low` on.
abbrev pub Ascending : ℕ → List ℕ → Type 0
Ascending low [] = Unit
Ascending low (i ∷ is) = (low ≤ i) × Ascending (suc i) is

pub Ascending-le : (is : List ℕ) (a b : ℕ) → a ≤ b → Ascending b is → Ascending a is
Ascending-le [] a b h asc = tt
Ascending-le (i ∷ is) a b h (lo, asc) = (omega arith, asc)

pub find_cmdlines-Ascending : (ss : List SectionHeader) (i : ℕ) → Ascending i (find_cmdlines i ss)
unfolding find_cmdlines
find_cmdlines-Ascending [] i = tt
find_cmdlines-Ascending (s ∷ ss) i =
    let rest = find_cmdlines-Ascending ss (i + 1) in
    elim (Bool-cases (text_eq s.name section_name)) [
      | inl e ↦
          rw e (
            omega arith,
            Ascending-le (find_cmdlines (i + 1) ss) (suc i) (i + 1) (omega arith) rest,
          )
      | inr e ↦ rw e (Ascending-le (find_cmdlines (i + 1) ss) i (i + 1) (omega arith) rest)
    ]

-- `i` is the index of a section.
abbrev pub IsIndex : List SectionHeader → ℕ → ℕ → Type 0
IsIndex ss base i = (k : ℕ) × (s : SectionHeader) × (i ≡ base + k) × (get_elem? ss k ≡ some s)

IsIndex-cons :
    (s : SectionHeader) (ss : List SectionHeader) (base : ℕ) (is : List ℕ)
    → All (IsIndex ss (base + 1)) is
    → All (IsIndex (s ∷ ss) base) is
IsIndex-cons s ss base [] h = tt
IsIndex-cons s ss base (i ∷ is) ((k, t, e, g), h) =
    ((suc k, t, omega arith, g), IsIndex-cons s ss base is h)

pub find_cmdlines-IsIndex :
    (ss : List SectionHeader) (i : ℕ) → All (IsIndex ss i) (find_cmdlines i ss)
unfolding find_cmdlines
find_cmdlines-IsIndex [] i = tt
find_cmdlines-IsIndex (s ∷ ss) i =
    let rest = IsIndex-cons s ss i (find_cmdlines (i + 1) ss) (find_cmdlines-IsIndex ss (i + 1)) in
    elim (Bool-cases (text_eq s.name section_name)) [
      | inl e ↦ rw e ((0, s, omega arith, refl), rest)
      | inr e ↦ rw e rest
    ]

-- The new contents hold, at each index, the command line of that place.
abbrev pub Finds : NewData → List ℕ → List Bytes → Type 0
Finds fresh [] [] = Unit
Finds fresh (i ∷ is) (bytes ∷ cs) = (find_data i fresh ≡ some bytes) × Finds fresh is cs
Finds fresh _ _ = ⊥

Finds-cons :
    (is : List ℕ) (cs : List Bytes) (fresh : NewData) (i : ℕ) (bytes : Bytes)
    → Ascending (suc i) is
    → Finds fresh is cs
    → Finds ((i, bytes) ∷ fresh) is cs
Finds-cons [] [] fresh i bytes asc f = tt
Finds-cons [] (c ∷ cs) fresh i bytes asc f = f
Finds-cons (j ∷ is) [] fresh i bytes asc f = f
Finds-cons (j ∷ is) (c ∷ cs) fresh i bytes (lt, asc) (f0, f) = (
  unfold find_data in ground (arith, f0),
  Finds-cons is cs fresh i bytes (Ascending-le is (suc i) (suc j) (omega arith) asc) f,
)

pub new_data-Finds :
    (is : List ℕ) (cs : List Bytes) (low : ℕ) (fresh : NewData)
    → Ascending low is
    → length cs ≡ length is
    → new_data is cs ≡ ok fresh
    → Finds fresh is cs
unfolding new_data
new_data-Finds [] [] low fresh asc n h = tt
new_data-Finds [] (c ∷ cs) low fresh asc n h = absurd (omega arith)
new_data-Finds (i ∷ is) [] low fresh asc n h = absurd (omega arith)
new_data-Finds (i ∷ is) (c ∷ cs) low fresh (lo, asc) n h =
    let (rest, hr, e) = >>=-ok (new_data is cs) _ h in
    let more = new_data-Finds is cs (suc i) rest asc (omega arith) hr in
    let same : (i, c) ∷ rest ≡ fresh = ground (arith, e) in
    subst (λ d. Finds d (i ∷ is) (c ∷ cs)) same
      (unfold find_data in ground arith, Finds-cons is cs rest i c asc more)

-- resize_from works on each section by its index.
pub get_elem?-resize_from :
    (fa : ℕ) (fresh : NewData) (ss : List SectionHeader) (i k : ℕ) (s : SectionHeader)
    → get_elem? ss k ≡ some s
    → get_elem? (resize_from fa fresh i ss) k ≡ some (resize fa fresh (i + k) s)
unfolding resize_from
get_elem?-resize_from fa fresh [] i k s h = cc
get_elem?-resize_from fa fresh (t ∷ ss) i zero s h =
    let same : t ≡ s = some-injective t s h in ap some (cc (same, add-zero i))
get_elem?-resize_from fa fresh (t ∷ ss) i (suc k) s h =
    let index : i + 1 + k ≡ i + suc k = omega arith in
    rw (← index) (get_elem?-resize_from fa fresh ss (i + 1) k s h)

pub drop-resize_from :
    (fa : ℕ) (fresh : NewData) (ss : List SectionHeader) (i k : ℕ)
    → drop k (resize_from fa fresh i ss) ≡ resize_from fa fresh (i + k) (drop k ss)
unfolding resize_from
drop-resize_from fa fresh ss i zero = rw (add-zero i)
drop-resize_from fa fresh [] i (suc k) = refl
drop-resize_from fa fresh (t ∷ ss) i (suc k) =
    let index : i + 1 + k ≡ i + suc k = omega arith in
    rw (← index) (drop-resize_from fa fresh ss (i + 1) k)
