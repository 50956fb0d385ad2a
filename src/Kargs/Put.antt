-- ===== src/Kargs/Put.antt =====
-- pkg/kargs/kargs.go: the inner loop of Merge as one recursive function, and its laws.
use actions.Prelude.{
  ◌≡◌, refl, Bool, true, false, not, List, [], ◌∷◌, ◌++◌, arith, any, if◌then◌else◌,
}
use actions.Text.{Text, has_member, text_eq, text_eq_iff, text_eq_refl}
use actions.Kargs.{key, has_value, has_key, replace, merge_arg}

-- The arguments without those that have this key.
unfoldable pub drop_key : Text → List Text → List Text
drop_key k [] = []
drop_key k (c ∷ l) = if has_key k c then drop_key k l else c ∷ drop_key k l

-- `arg` in the place of the first argument with this key, or at the end.
unfoldable pub put : Text → Text → List Text → List Text
unfolding drop_key
put k arg [] = arg ∷ []
put k arg (c ∷ l) = if has_key k c then arg ∷ drop_key k l else c ∷ put k arg l

replace_done : (arg : Text) (l : List Text) → replace arg true l ≡ (drop_key (key arg) l, true)
unfolding replace drop_key
replace_done arg [] = refl
replace_done arg (c ∷ l) = ground (arith, replace_done arg l)

-- What one round makes of the result of the inner loop.
abbrev close : Text → List Text × Bool → List Text
close arg (kept, replaced) = if not replaced then kept ++ arg ∷ [] else kept

close-replace : (arg : Text) (l : List Text) → close arg (replace arg false l) ≡ put (key arg) arg l
unfolding replace put drop_key
close-replace arg [] = refl
close-replace arg (c ∷ l) = ground (arith, replace_done arg l, close-replace arg l)

module _ (a : Text) where
  pub merge_arg_value : (l : List Text) → has_value a ≡ true → merge_arg l a ≡ put (key a) a l
  unfolding merge_arg
  merge_arg_value l v = rw v (close-replace a l)

  pub merge_arg_flag :
      (l : List Text)
      → has_value a ≡ false
      → merge_arg l a ≡ (if not (has_member l a) then l ++ a ∷ [] else l)
  unfolding merge_arg
  merge_arg_flag l v = rw v

  pub has_key_self : has_value a ≡ true → has_key (key a) a ≡ true
  unfolding has_key
  has_key_self v = rw (v, text_eq_refl)

  pub has_key_flag : (k : Text) → has_value a ≡ false → has_key k a ≡ false
  unfolding has_key
  has_key_flag k v = rw v

  pub has_key_elim : (k : Text) → has_key k a ≡ true → (has_value a ≡ true) × (key a ≡ k)
  unfolding has_key
  has_key_elim k h = ground (arith, text_eq_iff (key a) k)

  pub key_ne : (k : Text) → has_value a ≡ true → has_key k a ≡ false → text_eq k (key a) ≡ false
  unfolding has_key
  key_ne k v h = ground (arith, text_eq_iff (key a) k, text_eq_iff k (key a))

  -- An argument has one key at most.
  pub has_key_unique : (j k : Text) → has_key j a ≡ true → has_key k a ≡ true → text_eq j k ≡ true
  unfolding has_key
  has_key_unique j k p q =
      ground (arith, text_eq_iff (key a) j, text_eq_iff (key a) k, text_eq_iff j k)

drop_key_idem : (k : Text) (l : List Text) → drop_key k (drop_key k l) ≡ drop_key k l
unfolding drop_key
drop_key_idem k [] = refl
drop_key_idem k (c ∷ l) = ground (arith, drop_key_idem k l)

drop_key_comm : (j k : Text) (l : List Text) → drop_key j (drop_key k l) ≡ drop_key k (drop_key j l)
unfolding drop_key
drop_key_comm j k [] = refl
drop_key_comm j k (c ∷ l) = ground (arith, drop_key_comm j k l)

module _ (k a b : Text) (hb : has_key k b ≡ true) where
  drop_key-put : (l : List Text) → drop_key k (put k b l) ≡ drop_key k l
  unfolding put drop_key
  drop_key-put [] = rw hb
  drop_key-put (c ∷ l) = ground (arith, drop_key-put l, drop_key_idem k l)

  -- The later of two arguments with one key is the one that stays.
  pub put-put : (l : List Text) → put k a (put k b l) ≡ put k a l
  unfolding put drop_key
  put-put [] = rw hb
  put-put (c ∷ l) = ground (arith, put-put l, drop_key_idem k l)

-- Arguments with two keys do not disturb one another.
module _ (j k a b : Text) (ha : has_key k a ≡ true) (hb : has_key j b ≡ true)
    (ne : text_eq j k ≡ false) where
  drop_key-put_ne : (l : List Text) → drop_key k (put j b l) ≡ put j b (drop_key k l)
  unfolding put drop_key
  drop_key-put_ne [] = ground (arith, has_key_unique b j k hb)
  drop_key-put_ne (c ∷ l) =
      ground
        (arith, drop_key-put_ne l, drop_key_comm j k l, has_key_unique c j k, has_key_unique b j k)

  drop_key-put_back : (l : List Text) → drop_key j (put k a l) ≡ put k a (drop_key j l)
  unfolding put drop_key
  drop_key-put_back [] = ground (arith, has_key_unique a j k)
  drop_key-put_back (c ∷ l) =
      ground (
        arith,
        drop_key-put_back l,
        drop_key_comm j k l,
        has_key_unique c j k,
        has_key_unique a j k,
      )

  pub put_comm :
      (l : List Text) → any (has_key j) l ≡ true → put j b (put k a l) ≡ put k a (put j b l)
  unfolding put drop_key
  put_comm [] h = cc
  put_comm (c ∷ l) h = ground (
    arith,
    put_comm l,
    drop_key-put_ne l,
    drop_key-put_back l,
    has_key_unique c j k,
    has_key_unique b j k,
    has_key_unique a j k,
  )
