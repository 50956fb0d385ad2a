-- ===== src/Net/Unique.antt =====
-- pkg/talosnet/mapping.go: the lists that appendUnique makes.
use actions.Prelude.{
  ◌≡◌, refl, subst, Bool, true, false, not, ◌||◌, ◌&&◌, List, [], ◌∷◌, ◌++◌, arith, Bool-cases, inl,
  inr,
}
use actions.Text.{Text, text_eq, text_eq_iff, trim_space, has_member}
use actions.Text.Members.{has_member-append}
use actions.Net.Mapping.{append_one, append_unique}

-- No member stands twice.
abbrev pub distinct : List Text → Bool
distinct [] = true
distinct (s ∷ list) = not (has_member list s) && distinct list

distinct-append :
    (list : List Text) (v : Text)
    → distinct list ≡ true
    → has_member list v ≡ false
    → distinct (list ++ v ∷ []) ≡ true
unfolding has_member
distinct-append [] v h n = refl
distinct-append (s ∷ list) v h n = ground (
  arith,
  distinct-append list v,
  has_member-append list (v ∷ []) s,
  text_eq_iff s v,
  text_eq_iff v s,
)

append_one-distinct :
    (list : List Text) (v : Text) → distinct list ≡ true → distinct (append_one list v) ≡ true
unfolding append_one
append_one-distinct list v h = ground (arith, distinct-append list v h)

append_one-has_member :
    (list : List Text) (v t : Text)
    → has_member (append_one list v) t ≡ (has_member list t || (not (text_eq v []) && text_eq v t))
append_one-has_member list v t = elim (Bool-cases (text_eq v [])) [
  | inl e ↦ unfold append_one in rw e (ground arith)
  | inr e ↦ elim (Bool-cases (has_member list v)) [
    | inl m ↦ elim (Bool-cases (text_eq v t)) [
      | inl q ↦
          let same : v ≡ t = (text_eq_iff v t).0 q in
          unfold append_one in rw (e, m, q, subst (λ z. has_member list z ≡ true) same m) refl
      | inr q ↦ unfold append_one in rw (e, m, q) (ground arith)
    ]
    | inr m ↦
        unfold append_one has_member in rw (e, m, has_member-append list (v ∷ []) t) (ground arith)
  ]
]

-- Some value, trimmed, is this text and is not blank.
abbrev pub given : List Text → Text → Bool
given [] t = false
given (v ∷ values) t =
    (not (text_eq (trim_space v) []) && text_eq (trim_space v) t) || given values t

-- appendUnique adds each value, trimmed, that is neither blank nor there, and no other: a list without
-- duplicates stays without, and a text is in the result if it was in the list or is such a value.
pub append_unique_lem :
    (values list : List Text) (t : Text)
    → distinct list ≡ true
    → (distinct (append_unique list values) ≡ true)
      × (has_member (append_unique list values) t ≡ (has_member list t || given values t))
unfolding append_unique
append_unique_lem [] list t h = (h, ground arith)
append_unique_lem (v ∷ values) list t h =
    let (d, m) =
      append_unique_lem values (append_one list (trim_space v)) t
        (append_one-distinct list (trim_space v) h) in
    (d, ground (arith, m, append_one-has_member list (trim_space v) t))
