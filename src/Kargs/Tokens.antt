-- ===== src/Kargs/Tokens.antt =====
-- pkg/kargs/kargs.go: what one round of Merge's outer loop does to a list of arguments.
use mathlib.Core.Path.{fun_ext}
use actions.Prelude.{
  ◌≡◌, refl, ap, ◌∙◌, sym, Bool, true, false, List, [], ◌∷◌, ◌++◌, arith, any, filter, any-append,
  if◌then◌else◌, Bool-cases, inl, inr,
}
use actions.Text.{Text, text_eq, text_eq_iff, text_eq_refl, has_member}
use actions.Kargs.{key, has_value, has_key, merge_arg}
use actions.Kargs.Put.{
  put, drop_key, merge_arg_value, merge_arg_flag, has_key_self, has_key_flag, has_key_unique,
  has_key_elim, key_ne, put-put, put_comm,
}

-- `c` is an argument that setting `a` is about: the same flag, or one with the same key.
unfoldable pub names : Text → Text → Bool
names a c = if has_value a then has_key (key a) c else text_eq c a

pub names_value : (a : Text) → has_value a ≡ true → names a ≡ has_key (key a)
unfolding names
names_value a v = fun_ext λ c. rw v

pub names_flag : (a : Text) → has_value a ≡ false → names a ≡ (λ c. text_eq c a)
unfolding names
names_flag a v = fun_ext λ c. rw v

pub names_refl : (a : Text) → names a a ≡ true
unfolding names
names_refl a = elim (Bool-cases (has_value a)) [
  | inl v ↦ rw v (has_key_self a v)
  | inr v ↦ rw v (text_eq_refl a)
]

has_member-any : (l : List Text) (a : Text) → has_member l a ≡ any (λ c. text_eq c a) l
unfolding has_member
has_member-any [] a = refl
has_member-any (c ∷ l) a = ground (arith, has_member-any l a)

any-put_self :
    (k a : Text) (l : List Text) → has_key k a ≡ true → any (has_key k) (put k a l) ≡ true
unfolding put
any-put_self k a [] h = rw h
any-put_self k a (c ∷ l) h = ground (arith, any-put_self k a l h)

-- For a test that no argument with key `k` passes.
module _ (p : Text → Bool) (k a : Text) (off : (c : Text) → has_key k c ≡ true → p c ≡ false) where
  any-drop_key : (l : List Text) → any p (drop_key k l) ≡ any p l
  unfolding drop_key
  any-drop_key [] = refl
  any-drop_key (c ∷ l) = ground (arith, any-drop_key l, off c)

  any-put : (l : List Text) → has_key k a ≡ true → any p (put k a l) ≡ any p l
  unfolding put
  any-put [] h = rw (off a h)
  any-put (c ∷ l) h = ground (arith, any-put l h, any-drop_key l, off c, off a)

  filter-drop_key : (l : List Text) → filter p (drop_key k l) ≡ filter p l
  unfolding drop_key
  filter-drop_key [] = refl
  filter-drop_key (c ∷ l) = ground (arith, filter-drop_key l, off c)

  pub filter-put : (l : List Text) → has_key k a ≡ true → filter p (put k a l) ≡ filter p l
  unfolding put
  filter-put [] h = rw (off a h)
  filter-put (c ∷ l) h = ground (arith, filter-put l h, filter-drop_key l, off c, off a)

filter-drop_key_self : (k : Text) (l : List Text) → filter (has_key k) (drop_key k l) ≡ []
unfolding drop_key
filter-drop_key_self k [] = refl
filter-drop_key_self k (c ∷ l) = ground (arith, filter-drop_key_self k l)

pub filter-put_self :
    (k a : Text) (l : List Text) → has_key k a ≡ true → filter (has_key k) (put k a l) ≡ a ∷ []
unfolding put
filter-put_self k a [] h = rw h
filter-put_self k a (c ∷ l) h = ground (arith, filter-put_self k a l h, filter-drop_key_self k l)

drop_key-append :
    (k : Text) (l : List Text) (a : Text)
    → has_key k a ≡ false
    → drop_key k (l ++ a ∷ []) ≡ drop_key k l ++ a ∷ []
unfolding drop_key
drop_key-append k [] a h = rw h
drop_key-append k (c ∷ l) a h = ground (arith, drop_key-append k l a h)

put_end :
    (k b a : Text) (l : List Text)
    → has_key k a ≡ false
    → any (has_key k) l ≡ true
    → put k b (l ++ a ∷ []) ≡ put k b l ++ a ∷ []
unfolding put
put_end k b a [] h e = cc
put_end k b a (c ∷ l) h e = ground (arith, put_end k b a l h, drop_key-append k l a h)

pub any-merge_arg_self : (a : Text) (l : List Text) → any (names a) (merge_arg l a) ≡ true
any-merge_arg_self a l = elim (Bool-cases (has_value a)) [
  | inl v ↦
      rw (merge_arg_value a l v)
        (rw (names_value a v) (any-put_self (key a) a l (has_key_self a v)))
  | inr v ↦ rw (merge_arg_flag a l v) (
      ground (
        arith,
        has_member-any l a,
        names_flag a v,
        any-append (λ c. text_eq c a) l (a ∷ []),
        text_eq_refl a,
      ))
]

-- Arguments with the key of `a` are not what another argument `b` is about.
pub names_other :
    (a b : Text)
    → has_value a ≡ true
    → names b a ≡ false
    → (c : Text) → has_key (key a) c ≡ true
    → names b c ≡ false
names_other a b va n c h = elim (Bool-cases (has_value b)) [
  | inl vb ↦ rw (names_value b vb) (
      ground (
        arith,
        has_key_unique c (key a) (key b) h,
        text_eq_iff (key a) (key b),
        has_key_self a va,
        (rw (names_value b vb) at n),
      ))
  | inr vb ↦ rw (names_flag b vb) (ground (arith, text_eq_iff c b, has_key_flag b (key a) vb))
]

-- Two arguments about one thing are about the same arguments.
pub names_same : (a b : Text) → names b a ≡ true → names b ≡ names a
names_same a b h = elim (Bool-cases (has_value b)) [
  | inl vb ↦
      let (va, e) = has_key_elim a (key b) (rw (names_value b vb) at h) in
      names_value b vb ∙ ap has_key (sym e) ∙ sym (names_value a va)
  | inr vb ↦ ap names (sym ((text_eq_iff a b).0 (rw (names_flag b vb) at h)))
]

-- What is there stays there when another argument is set.
pub any-merge_arg :
    (a b : Text) (l : List Text) → any (names b) l ≡ true → any (names b) (merge_arg l a) ≡ true
any-merge_arg a b l h = elim (Bool-cases (has_value a)) [
  | inl va ↦ elim (Bool-cases (names b a)) [
    | inl same ↦ rw (names_same a b same) (any-merge_arg_self a l)
    | inr other ↦
        rw (merge_arg_value a l va)
          (any-put (names b) (key a) a (names_other a b va other) l (has_key_self a va) ∙ h)
  ]
  | inr va ↦ rw (merge_arg_flag a l va) (ground (arith, any-append (names b) l (a ∷ []), h))
]

merge_flag_there :
    (b : Text) (l : List Text) → has_value b ≡ false → any (names b) l ≡ true → merge_arg l b ≡ l
merge_flag_there b l vb h =
    rw (merge_arg_flag b l vb, has_member-any l b) (ground (arith, (rw (names_flag b vb) at h)))

merge_flag_again :
    (b : Text) (l : List Text) → has_value b ≡ false → merge_arg (merge_arg l b) b ≡ merge_arg l b
merge_flag_again b l vb = merge_flag_there b (merge_arg l b) vb (any-merge_arg_self b l)

-- The later of two arguments about one thing is the one that stays.
pub merge_arg_absorb :
    (a b : Text) (l : List Text) → names b a ≡ true → merge_arg (merge_arg l a) b ≡ merge_arg l b
merge_arg_absorb a b l h = elim (Bool-cases (has_value b)) [
  | inl vb ↦
      let (va, e) = has_key_elim a (key b) (rw (names_value b vb) at h) in
      rw (merge_arg_value b (merge_arg l a) vb, merge_arg_value a l va, merge_arg_value b l vb)
        (rw e (put-put (key b) b a (rw (names_value b vb) at h) l))
  | inr vb ↦ rw ((text_eq_iff a b).0 (rw (names_flag b vb) at h)) (merge_flag_again b l vb)
]

flag_comm :
    (a b : Text) (l : List Text)
    → has_value a ≡ false
    → has_value b ≡ true
    → any (has_key (key b)) l ≡ true
    → merge_arg (merge_arg l a) b ≡ merge_arg (merge_arg l b) a
flag_comm a b l va vb h =
    let off : (c : Text) → has_key (key b) c ≡ true → text_eq c a ≡ false =
      λ c e. ground (arith, text_eq_iff c a, has_key_flag a (key b) va) in
    rw
      (merge_arg_flag a l va, merge_arg_value b l vb, merge_arg_flag a _ va, merge_arg_value b _ vb)
      (rw
        (
          has_member-any l a,
          has_member-any (put (key b) b l) a,
          any-put (λ c. text_eq c a) (key b) b off l (has_key_self b vb),
        )
        (ground (arith, put_end (key b) b a l (has_key_flag a (key b) va) h)))

-- Setting what is there already does not disturb, and is not disturbed by, another argument.
pub merge_arg_comm :
    (a b : Text) (l : List Text)
    → names b a ≡ false
    → any (names b) l ≡ true
    → merge_arg (merge_arg l a) b ≡ merge_arg (merge_arg l b) a
merge_arg_comm a b l n h = elim (Bool-cases (has_value b)) [
  | inl vb ↦ elim (Bool-cases (has_value a)) [
    | inl va ↦
        rw
          (
            merge_arg_value a l va,
            merge_arg_value b l vb,
            merge_arg_value b _ vb,
            merge_arg_value a _ va,
          )
          (put_comm (key b) (key a) a b (has_key_self a va) (has_key_self b vb)
            (key_ne a (key b) va (rw (names_value b vb) at n)) l (rw (names_value b vb) at h))
    | inr va ↦ flag_comm a b l va vb (rw (names_value b vb) at h)
  ]
  | inr vb ↦
      rw (merge_flag_there b l vb h, merge_flag_there b (merge_arg l a) vb (any-merge_arg a b l h))
]
