-- ===== src/Text/Fields.antt =====
-- strings.Fields, and the words that it gives.
use actions.Prelude.{
  ℕ, ◌≡◌, ◌≢◌, refl, sym, ap, ◌∙◌, true, false, List, [], ◌∷◌, ◌++◌, append_assoc, append-nil, All,
  All-append, Bool-cases, inl, inr,
}
use actions.Text.{Text, is_space, join}

-- The field that ends here, if one has begun.
unfoldable pub flush : Text → List Text
flush [] = []
flush (c ∷ cur) = (c ∷ cur) ∷ []

-- The loop of strings.Fields: `cur` is the field that has begun.
unfoldable pub fields_from : Text → Text → List Text
unfolding flush
fields_from cur [] = flush cur
fields_from cur (c ∷ s) = elim (is_space c) [
  | true ↦ flush cur ++ fields_from [] s
  | false ↦ fields_from (cur ++ c ∷ []) s
]

unfoldable pub fields : Text → List Text
unfolding fields_from
fields s = fields_from [] s

-- A word: not empty, and no white space.
abbrev pub Solid : Text → Type 0
Solid = All (λ c. is_space c ≡ false)

pub record IsWord (w : Text) : Type 0 where
  pub filled : w ≢ []
  pub solid : Solid w

flush-IsWord : (cur : Text) → Solid cur → All IsWord (flush cur)
unfolding flush
flush-IsWord [] h = tt
flush-IsWord (c ∷ cur) h = (record { filled = λ e. cc; solid = h }, tt)

fields_from_space :
    (cur s : Text) (c : ℕ)
    → is_space c ≡ true
    → fields_from cur (c ∷ s) ≡ flush cur ++ fields_from [] s
unfolding fields_from
fields_from_space cur s c e = rw (e, fields_from)

fields_from_solid :
    (cur s : Text) (c : ℕ)
    → is_space c ≡ false
    → fields_from cur (c ∷ s) ≡ fields_from (cur ++ c ∷ []) s
unfolding fields_from
fields_from_solid cur s c e = rw (e, fields_from)

fields_from-IsWord : (cur s : Text) → Solid cur → All IsWord (fields_from cur s)
fields_from-IsWord cur [] h = unfold fields_from in flush-IsWord cur h
fields_from-IsWord cur (c ∷ s) h = elim (Bool-cases (is_space c)) [
  | inl e ↦
      rw (fields_from_space cur s c e)
        (All-append IsWord _ _ (flush-IsWord cur h) (fields_from-IsWord [] s tt))
  | inr e ↦
      rw (fields_from_solid cur s c e)
        (fields_from-IsWord (cur ++ c ∷ []) s (All-append _ cur (c ∷ []) h (e, tt)))
]

-- Every field is a word.
pub fields-IsWord : (s : Text) → All IsWord (fields s)
unfolding fields
fields-IsWord s = fields_from-IsWord [] s tt

-- A word is read whole.
fields_from-append :
    (cur w s : Text) → Solid w → fields_from cur (w ++ s) ≡ fields_from (cur ++ w) s
fields_from-append cur [] s h = rw append-nil
fields_from-append cur (c ∷ w) s (hc, hw) =
    rw (fields_from_solid cur (w ++ s) c hc)
      (fields_from-append (cur ++ c ∷ []) w s hw ∙ rw append_assoc)

flush_word : (w : Text) → w ≢ [] → flush w ≡ w ∷ []
unfolding flush
flush_word [] h = absurd (h refl)
flush_word (c ∷ w) h = refl

-- A single space.
abbrev pub space : Text
space = 32 ∷ []

space_is_space : is_space 32 ≡ true
unfolding is_space
space_is_space = refl

-- Splitting words that single spaces join gives the words back.
pub fields-join : (ws : List Text) → All IsWord ws → fields (join ws space) ≡ ws
unfolding fields join
fields-join [] h = unfold fields_from flush in refl
fields-join (w ∷ []) (hw, _) =
    ap fields (sym (append-nil w))
    ∙ fields_from-append [] w [] hw.solid
    ∙ unfold fields_from in flush_word w hw.filled
fields-join (w ∷ v ∷ ws) (hw, hs) =
    fields_from-append [] w (32 ∷ join (v ∷ ws) space) hw.solid
    ∙ fields_from_space w (join (v ∷ ws) space) 32 space_is_space
    ∙ rw (flush_word w hw.filled) (ap (◌∷◌ w) (fields-join (v ∷ ws) hs))
