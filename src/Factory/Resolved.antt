-- ===== src/Factory/Resolved.antt =====
-- pkg/factory/version.go: what ResolveVersion returns.
use actions.Prelude.{
  ℕ, ◌≡◌, refl, ap, subst, sym, true, false, List, [], ◌∷◌, ◌++◌, Option, none, some, ok, ◌⊎◌, inl,
  inr, All, Memᴰ, arith, Bool-cases, Option-cases, ok-injective, ◌≤◌,
}
use actions.Text.{Text, codes, text_eq, text_eq_refl, trim_space}
use actions.Factory.{patch_of, exceeds, best_patch, resolve_version, is_full_version, is_bare_minor}

-- A patch, if there is one, is at most that of the best.
abbrev pub AtMost : Option ℕ → Option ℕ → Type 0
AtMost none best = Unit
AtMost (some n) none = ⊥
AtMost (some n) (some b) = n ≤ b

-- A version with its patch.
abbrev IsPatched : Text → Text × Option ℕ → Type 0
IsPatched prefix best = (n : ℕ) × (patch_of prefix best.0 ≡ some n) × (best.1 ≡ some n)

-- The best of a list: none has a higher patch, and it is what stood first or one of the list.
record IsBest (prefix : Text) (first : Text × Option ℕ) (versions : List Text)
    (best : Text × Option ℕ) : Type 0 where
  above_first : AtMost first.1 best.1
  above_all : All (λ v. AtMost (patch_of prefix v) best.1) versions
  origin : (best ≡ first) ⊎ (Memᴰ best.0 versions × IsPatched prefix best)

AtMost-trans : (a b c : Option ℕ) → AtMost a b → AtMost b c → AtMost a c
AtMost-trans none b c h k = tt
AtMost-trans (some a) none c h k = elim h [ ]
AtMost-trans (some a) (some b) none h k = elim k [ ]
AtMost-trans (some a) (some b) (some c) h k = omega arith

AtMost-self : (a : Option ℕ) → AtMost a a
AtMost-self none = tt
AtMost-self (some a) = omega arith

exceeds-AtMost : (n : ℕ) (b : Option ℕ) → exceeds n b ≡ true → AtMost b (some n)
exceeds-AtMost n none h = tt
exceeds-AtMost n (some b) h = ground arith

not_exceeds-AtMost : (n : ℕ) (b : Option ℕ) → exceeds n b ≡ false → AtMost (some n) b
not_exceeds-AtMost n none h = cc
not_exceeds-AtMost n (some b) h = ground arith

best_patch-IsBest :
    (prefix : Text) (versions : List Text) (first : Text × Option ℕ)
    → IsBest prefix first versions (best_patch prefix first versions)
unfolding best_patch
best_patch-IsBest prefix [] first = record {
  above_first = AtMost-self first.1;
  above_all = tt;
  origin = inl refl;
}
best_patch-IsBest prefix (v ∷ vs) first = elim (Option-cases (patch_of prefix v)) [
  | inl q ↦
      let rest = best_patch-IsBest prefix vs first in
      rw (q, best_patch)
        (record {
          above_first = rest.above_first;
          above_all = (rw q tt, rest.above_all);
          origin = later prefix v vs first (best_patch prefix first vs) rest.origin;
        })
  | inr (n, q) ↦ elim (Bool-cases (exceeds n first.1)) [
    | inr e ↦
        let rest = best_patch-IsBest prefix vs first in
        rw (q, best_patch, e)
          (record {
            above_first = rest.above_first;
            above_all = (
              rw q (
                  AtMost-trans (some n) first.1 (best_patch prefix first vs).1
                    (not_exceeds-AtMost n first.1 e) rest.above_first),
              rest.above_all,
            );
            origin = later prefix v vs first (best_patch prefix first vs) rest.origin;
          })
    | inl e ↦
        let rest = best_patch-IsBest prefix vs (v, some n) in
        rw (q, best_patch, e)
          (record {
            above_first =
                AtMost-trans first.1 (some n) (best_patch prefix (v, some n) vs).1
                  (exceeds-AtMost n first.1 e) rest.above_first;
            above_all = (rw q rest.above_first, rest.above_all);
            origin = taken prefix v vs n first (best_patch prefix (v, some n) vs) q rest.origin;
          })
  ]
]
  where
    later :
        (prefix v : Text) (vs : List Text) (first best : Text × Option ℕ)
        → (best ≡ first) ⊎ (Memᴰ best.0 vs × IsPatched prefix best)
        → (best ≡ first) ⊎ (Memᴰ best.0 (v ∷ vs) × IsPatched prefix best)
    later prefix v vs first best (inl e) = inl e
    later prefix v vs first best (inr (m, p)) = inr (Memᴰ.tail m, p)

    taken :
        (prefix v : Text) (vs : List Text) (n : ℕ) (first best : Text × Option ℕ)
        → patch_of prefix v ≡ some n
        → (best ≡ (v, some n)) ⊎ (Memᴰ best.0 vs × IsPatched prefix best)
        → (best ≡ first) ⊎ (Memᴰ best.0 (v ∷ vs) × IsPatched prefix best)
    taken prefix v vs n first best q (inl e) =
        inr (
          subst (λ b. Memᴰ b.0 (v ∷ vs) × IsPatched prefix b) (sym e)
            (Memᴰ.head refl, (n, q, refl)))
    taken prefix v vs n first best q (inr (m, p)) = inr (Memᴰ.tail m, p)

chosen_of_best :
    (prefix : Text) (versions : List Text) (best : Text × Option ℕ)
    → IsBest prefix ([], none) versions best
    → text_eq best.0 [] ≡ false
    → Memᴰ best.0 versions
      × ((n : ℕ) × (patch_of prefix best.0 ≡ some n)
          × All (λ w. AtMost (patch_of prefix w) (some n)) versions)
chosen_of_best prefix versions best h ne = elim h.origin [
  | inl e ↦ cc (ap (λ b. text_eq b.0 []) e, ne, text_eq_refl [])
  | inr (m, (n, p, q)) ↦
      (m, (n, p, subst (λ b. All (λ w. AtMost (patch_of prefix w) b) versions) q h.above_all))
]

-- A version that ResolveVersion returns is the one that was asked for, if that is a full version, or
-- else one of the list, a release of the minor that was asked for, and no release of the minor in the
-- list has a higher patch.
pub resolve_version_lem :
    (text : Text) (versions : List Text) (v : Text)
    → resolve_version text versions ≡ ok v
    → ((is_full_version (trim_space text) ≡ true) × (v ≡ trim_space text))
      ⊎ ((is_bare_minor (trim_space text) ≡ true)
          × (Memᴰ v versions
              × ((n : ℕ) × (patch_of (trim_space text ++ codes ".") v ≡ some n)
                  × All
                      (λ w. AtMost (patch_of (trim_space text ++ codes ".") w) (some n))
                      versions)))
resolve_version_lem text versions v = elim (Bool-cases (is_full_version (trim_space text))) [
  | inl e ↦ unfold resolve_version in rw e (λ h. inl (refl, sym (ok-injective h)))
  | inr e ↦ elim (Bool-cases (is_bare_minor (trim_space text))) [
    | inr m ↦ unfold resolve_version in rw (e, m) (λ h. cc)
    | inl m ↦
        let prefix = trim_space text ++ codes "." in
        let best = best_patch prefix ([], none) versions in
        elim (Bool-cases (text_eq best.0 [])) [
          | inl b ↦ unfold resolve_version in rw (e, m, b) (λ h. cc)
          | inr b ↦
              unfold resolve_version in
              rw (e, m, b)
                (λ h. inr (
                  refl,
                  subst
                      (λ z.
                        Memᴰ z versions
                        × ((n : ℕ) × (patch_of prefix z ≡ some n)
                            × All (λ w. AtMost (patch_of prefix w) (some n)) versions))
                      (ok-injective h)
                      (chosen_of_best prefix versions best
                        (best_patch-IsBest prefix versions ([], none)) b),
                ))
        ]
  ]
]
