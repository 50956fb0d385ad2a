-- ===== src/Meta/Sample.antt =====
-- An ADV of two bytes, for the tags 10 and 11, and a legacy ADV of one, with the laws of go-adv.
use actions.Prelude.{
  ℕ, ◌≡◌, refl, arith, [], ◌∷◌, ◌++◌, Option, none, some, ◌==◌, if◌then◌else◌, ap, sym, length,
}
use actions.Uki.{Bytes}
use actions.Meta.{AdvLib}
use actions.Meta.ReadBack.{AdvLaws}
use actions.Meta.Kept.{SetsOne}

abbrev load_pair : Bytes → Option (ℕ × ℕ)
load_pair (tag ∷ value ∷ rest) = some (tag, value)
load_pair (tag ∷ []) = none
load_pair [] = none

abbrev read_pair : ℕ × ℕ → ℕ → Option Bytes
read_pair (a, b) tag =
    if tag == 10 then some (a ∷ []) else if tag == 11 then some (b ∷ []) else none

abbrev set_pair : ℕ × ℕ → ℕ → Bytes → Option (ℕ × ℕ)
set_pair old tag [] = none
set_pair (a, b) tag (value ∷ []) =
    if tag == 10 then some (value, b) else if tag == 11 then some (a, value) else none
set_pair old tag (value ∷ more ∷ rest) = none

abbrev pub pair_lib : AdvLib
pair_lib = record {
  Talos = ℕ × ℕ;
  Legacy = Unit {0};
  talos_size = 2;
  legacy_size = 1;
  load_talos = load_pair;
  load_legacy = λ section. some tt;
  read_talos = read_pair;
  read_legacy = λ l tag. none;
  set_talos = set_pair;
  talos_bytes = λ t. some (t.0 ∷ t.1 ∷ []);
  legacy_bytes = λ l. some (0 ∷ []);
}

read_set_pair :
    (t : ℕ × ℕ) (tag : ℕ) (value : Bytes) (t2 : ℕ × ℕ)
    → set_pair t tag value ≡ some t2
    → read_pair t2 tag ≡ some value
read_set_pair t tag [] t2 h = cc
read_set_pair t tag (v ∷ []) t2 h = ground arith
read_set_pair t tag (v ∷ w ∷ rest) t2 h = cc

pub pair_sets_one : SetsOne pair_lib
pair_sets_one t tag [] t2 other h ne = cc
pair_sets_one t tag (v ∷ []) t2 other h ne = ground arith
pair_sets_one t tag (v ∷ w ∷ rest) t2 other h ne = cc

pub pair_laws : AdvLaws pair_lib
pair_laws = record {
  length_talos = λ t b h. ap length (sym (shared h));
  length_legacy = λ l b h. ap length (sym (shared h));
  reload_talos = λ t b rest h. (t, ap (λ z. load_pair (z ++ rest)) (sym (shared h)), λ tag. refl);
  reload_legacy = λ l b before h. (tt, refl, λ tag. refl);
  read_set = read_set_pair;
}
  where
    shared : {a b : Bytes} → some a ≡ some b → a ≡ b
    shared e = cc
