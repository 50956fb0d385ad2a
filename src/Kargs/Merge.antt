-- ===== src/Kargs/Merge.antt =====
-- pkg/kargs/kargs.go: Merge on lists of arguments, and on command lines.
use actions.Prelude.{
  ◌≡◌, refl, ap, ◌∙◌, sym, subst, Bool, true, false, not, List, [], ◌∷◌, ◌++◌, arith, any, filter,
  filter-append, All, append_assoc, append-nil, if◌then◌else◌, Bool-cases, inl, inr, All-append,
}
use actions.Text.{Text, join, has_member}
use actions.Text.Fields.{IsWord, fields, fields-join, fields-IsWord, space}
use actions.Kargs.{key, has_value, has_key, merge_arg, merge_args, merge}
use actions.Kargs.Put.{
  put, drop_key, merge_arg_value, merge_arg_flag, has_key_self, has_key_elim, has_key_flag,
  has_key_unique, key_ne,
}
use actions.Kargs.Tokens.{
  names, names_refl, names_value, any-merge_arg, any-merge_arg_self, merge_arg_absorb,
  merge_arg_comm, filter-put, filter-put_self,
}

-- Each of `args` is there.
abbrev Has : List Text → List Text → Type 0
Has l = All (λ b. any (names b) l ≡ true)

Has-merge_arg : (a : Text) (l args : List Text) → Has l args → Has (merge_arg l a) args
Has-merge_arg a l [] h = tt
Has-merge_arg a l (b ∷ args) (hb, hs) = (any-merge_arg a b l hb, Has-merge_arg a l args hs)

Has-merge_args : (l more args : List Text) → Has l args → Has (merge_args l more) args
unfolding merge_args
Has-merge_args l [] args h = h
Has-merge_args l (a ∷ more) args h =
    Has-merge_args (merge_arg l a) more args (Has-merge_arg a l args h)

merge_args-Has : (l args : List Text) → Has (merge_args l args) args
unfolding merge_args
merge_args-Has l [] = tt
merge_args-Has l (a ∷ args) = (
  (Has-merge_args (merge_arg l a) args (a ∷ []) (any-merge_arg_self a l, tt)).0,
  merge_args-Has (merge_arg l a) args,
)

merge_args-append :
    (l args more : List Text) → merge_args l (args ++ more) ≡ merge_args (merge_args l args) more
unfolding merge_args
merge_args-append l [] more = refl
merge_args-append l (a ∷ args) more = merge_args-append (merge_arg l a) args more

-- Setting `a` both before and after arguments that are there is setting it after them.
merge_args_again :
    (a : Text) (l args : List Text)
    → Has l args
    → merge_arg (merge_args (merge_arg l a) args) a ≡ merge_arg (merge_args l args) a
unfolding merge_args
merge_args_again a l [] h = merge_arg_absorb a a l (names_refl a)
merge_args_again a l (b ∷ args) (hb, hs) = elim (Bool-cases (names b a)) [
  | inl same ↦ ap (λ m. merge_arg (merge_args m args) a) (merge_arg_absorb a b l same)
  | inr other ↦
      ap (λ m. merge_arg (merge_args m args) a) (merge_arg_comm a b l other hb)
      ∙ merge_args_again a (merge_arg l b) args (Has-merge_arg b l args hs)
]

-- Idempotence, which one more argument at the end keeps.
abbrev IsIdem : List Text → Type 0
IsIdem args = (l : List Text) → merge_args (merge_args l args) args ≡ merge_args l args

IsIdem-snoc : (args : List Text) (a : Text) → IsIdem args → IsIdem (args ++ a ∷ [])
IsIdem-snoc args a h l =
    let once : (m : List Text) → merge_args m (args ++ a ∷ []) ≡ merge_arg (merge_args m args) a =
      λ m. unfold merge_args in merge_args-append m args (a ∷ []) in
    once _
    ∙ ap (λ m. merge_arg (merge_args m args) a) (once l)
    ∙ merge_args_again a (merge_args l args) args (merge_args-Has l args)
    ∙ ap (λ m. merge_arg m a) (h l)
    ∙ sym (once l)

IsIdem-append : (args more : List Text) → IsIdem args → IsIdem (args ++ more)
IsIdem-append args [] h = rw append-nil h
IsIdem-append args (a ∷ more) h =
    subst IsIdem (append_assoc args (a ∷ []) more)
      (IsIdem-append (args ++ a ∷ []) more (IsIdem-snoc args a h))

merge_args_idem : (l args : List Text) → merge_args (merge_args l args) args ≡ merge_args l args
merge_args_idem l args = IsIdem-append [] args (λ m. unfold merge_args in refl) l

drop_key-IsWord : (k : Text) (l : List Text) → All IsWord l → All IsWord (drop_key k l)
unfolding drop_key
drop_key-IsWord k [] h = tt
drop_key-IsWord k (c ∷ l) (hc, hl) = elim (Bool-cases (has_key k c)) [
  | inl e ↦ rw e (drop_key-IsWord k l hl)
  | inr e ↦ rw e (hc, drop_key-IsWord k l hl)
]

put-IsWord : (k a : Text) (l : List Text) → IsWord a → All IsWord l → All IsWord (put k a l)
unfolding put
put-IsWord k a [] ha h = (ha, tt)
put-IsWord k a (c ∷ l) ha (hc, hl) = elim (Bool-cases (has_key k c)) [
  | inl e ↦ rw e (ha, drop_key-IsWord k l hl)
  | inr e ↦ rw e (hc, put-IsWord k a l ha hl)
]

merge_arg-IsWord : (a : Text) (l : List Text) → IsWord a → All IsWord l → All IsWord (merge_arg l a)
merge_arg-IsWord a l ha hl = elim (Bool-cases (has_value a)) [
  | inl v ↦ rw (merge_arg_value a l v) (put-IsWord (key a) a l ha hl)
  | inr v ↦ rw (merge_arg_flag a l v) (elim (Bool-cases (has_member l a)) [
    | inl e ↦ rw e hl
    | inr e ↦ rw e (All-append IsWord l (a ∷ []) hl (ha, tt))
  ])
]

merge_args-IsWord :
    (l args : List Text) → All IsWord args → All IsWord l → All IsWord (merge_args l args)
unfolding merge_args
merge_args-IsWord l [] hs hl = hl
merge_args-IsWord l (a ∷ args) (ha, hs) hl =
    merge_args-IsWord (merge_arg l a) args hs (merge_arg-IsWord a l ha hl)

-- The arguments of a merged command line are the merged arguments.
pub fields-merge :
    (existing set : Text) → fields (merge existing set) ≡ merge_args (fields existing) (fields set)
fields-merge existing set =
    unfold merge in
    fields-join _ (
      merge_args-IsWord (fields existing) (fields set) (fields-IsWord set) (fields-IsWord existing))

merge_of_fields :
    (existing set : Text)
    → merge existing set ≡ join (merge_args (fields existing) (fields set)) space
unfolding merge
merge_of_fields existing set = refl

-- Merging the same arguments a second time changes nothing: the result is the same text.
pub merge_idem : (existing set : Text) → merge (merge existing set) set ≡ merge existing set
merge_idem existing set =
    merge_of_fields (merge existing set) set
    ∙ ap (λ l. join (merge_args l (fields set)) space) (fields-merge existing set)
    ∙ ap (λ l. join l space) (merge_args_idem (fields existing) (fields set))
    ∙ sym (merge_of_fields existing set)

-- The last of `new`, alone, and `old` if there is none.
abbrev pub last_or : List Text → List Text → List Text
last_or old [] = old
last_or old (a ∷ new) = last_or (a ∷ []) new

module _ (k : Text) where
  filter-merge_arg :
      (a : Text) (l : List Text)
      → filter (has_key k) (merge_arg l a) ≡ (if has_key k a then a ∷ [] else filter (has_key k) l)
  filter-merge_arg a l = elim (Bool-cases (has_value a)) [
    | inl v ↦ elim (Bool-cases (has_key k a)) [
      | inl e ↦ rw (merge_arg_value a l v, e, (has_key_elim a k e).1) (filter-put_self k a l e)
      | inr e ↦
          rw (merge_arg_value a l v, e)
            (filter-put (has_key k) (key a) a
              (λ c h. ground (arith, has_key_unique c k (key a), key_ne a k v e, h)) l
              (has_key_self a v))
    ]
    | inr v ↦ rw (merge_arg_flag a l v) (
        ground (
          arith,
          has_key_flag a k v,
          filter-append (has_key k) l (a ∷ []),
          append-nil (filter (has_key k) l),
        ))
  ]

  filter-merge_args :
      (l args : List Text)
      → filter (has_key k) (merge_args l args)
        ≡ last_or (filter (has_key k) l) (filter (has_key k) args)
  unfolding merge_args
  filter-merge_args l [] = refl
  filter-merge_args l (a ∷ args) =
      filter-merge_args (merge_arg l a) args ∙ ground (arith, filter-merge_arg a l)

-- For every key, the arguments with that key in the merged command line are the last such argument
-- of `set` and no other; if `set` has none, they are those of the existing command line, in order.
pub merge_by_key :
    (k existing set : Text)
    → filter (has_key k) (fields (merge existing set))
      ≡ last_or (filter (has_key k) (fields existing)) (filter (has_key k) (fields set))
merge_by_key k existing set =
    ap (filter (has_key k)) (fields-merge existing set)
    ∙ filter-merge_args k (fields existing) (fields set)

-- For a test that no argument passes that `a` is about.
filter-merge_arg_off :
    (p : Text → Bool) (a : Text) (l : List Text)
    → ((c : Text) → names a c ≡ true → p c ≡ false)
    → filter p (merge_arg l a) ≡ filter p l
filter-merge_arg_off p a l off = elim (Bool-cases (has_value a)) [
  | inl v ↦
      rw (merge_arg_value a l v)
        (filter-put p (key a) a (λ c h. off c (rw (names_value a v) h)) l (has_key_self a v))
  | inr v ↦
      rw (merge_arg_flag a l v)
        (ground (arith, off a (names_refl a), filter-append p l (a ∷ []), append-nil (filter p l)))
]

filter-merge_args_off :
    (p : Text → Bool) (l args : List Text)
    → ((c : Text) → any (λ a. names a c) args ≡ true → p c ≡ false)
    → filter p (merge_args l args) ≡ filter p l
unfolding merge_args
filter-merge_args_off p l [] off = refl
filter-merge_args_off p l (a ∷ args) off =
    filter-merge_args_off p (merge_arg l a) args (λ c h. off c (ground (arith, h)))
    ∙ filter-merge_arg_off p a l (λ c h. off c (rw h))

-- An argument that none of `args` is about.
unfoldable pub untouched : List Text → Text → Bool
untouched args c = not (any (λ a. names a c) args)

-- Arguments that `set` is not about stay, unchanged and in order.
pub merge_keeps_others :
    (existing set : Text)
    → filter (untouched (fields set)) (fields (merge existing set))
      ≡ filter (untouched (fields set)) (fields existing)
unfolding untouched
merge_keeps_others existing set =
    rw (fields-merge existing set)
      (filter-merge_args_off _ (fields existing) (fields set) (λ c h. rw h))
