-- ===== src/Install/Warned.antt =====
-- talos2disk/run.go: when warnUnknownDisk warns.
use actions.Prelude.{
  ℕ, ◌+◌, ◌≡◌, ◌≢◌, refl, ap, ◌∙◌, Bool, true, false, not, ◌||◌, List, [], ◌∷◌, Option, any,
  any-cases, All, Memᴰ, length, filter, ltb, Bool-cases, inl, inr, ◌⊎◌, arith, if◌then◌else◌,
}
use actions.Text.{Text, text_eq}
use actions.Install.Unknown.{not_declared, is_device, count_declared, declared_warnings}

-- The entries that name a device.
abbrev pub named : List Text → List Text
named = filter (λ device. not (text_eq device []))

any_or :
    (p : Text → Bool) (xs : List Text) (x : Text) (known : Bool)
    → (any p xs || (if p x then true else known)) ≡ ((p x || any p xs) || known)
any_or p xs x known = ground arith

count_declared_lem :
    (eval : Text → Option Text) (dev : Text) (declared : ℕ) (known : Bool) (disks : List Text)
    → count_declared eval dev declared known disks
      ≡ (declared + length (named disks), any (is_device eval dev) (named disks) || known)
unfolding count_declared
count_declared_lem eval dev declared known [] = ap (λ n. (n, known)) (omega arith)
count_declared_lem eval dev declared known (x ∷ xs) = elim (Bool-cases (text_eq x [])) [
  | inl e ↦ rw e (count_declared_lem eval dev declared known xs)
  | inr e ↦ rw e (
      count_declared_lem eval dev (declared + 1) (if is_device eval dev x then true else known) xs
      ∙ ap
          (λ n. (
            n,
            any (is_device eval dev) (named xs) || (if is_device eval dev x then true else known),
          ))
          (omega arith)
      ∙ ap (λ b. (declared + length (x ∷ named xs), b))
          (any_or (is_device eval dev) (named xs) x known))
]

nonempty :
    (xs : List Text)
    → ((xs ≡ []) × (ltb 0 (length xs) ≡ false)) ⊎ ((xs ≢ []) × (ltb 0 (length xs) ≡ true))
nonempty [] = inl (refl, refl)
nonempty (x ∷ xs) = inr (λ h. cc, ground arith)

-- The warning about spec.disks is logged exactly where entries name devices and none of these is the
-- chosen disk, by its path or behind links; entries without a device do not count.
declared_warnings_lem :
    (eval : Text → Option Text) (disks : List Text) (dev : Text)
    → ((declared_warnings eval disks dev ≡ not_declared dev ∷ [])
        × (named disks ≢ [])
        × All (λ x. is_device eval dev x ≡ false) (named disks))
      ⊎ ((declared_warnings eval disks dev ≡ [])
          × ((named disks ≡ [])
              ⊎ ((x : Text) × Memᴰ x (named disks) × (is_device eval dev x ≡ true))))
unfolding declared_warnings
declared_warnings_lem eval disks dev =
    rw (count_declared_lem eval dev 0 false disks)
      (elim (any-cases (is_device eval dev) (named disks)) [
        | inl (e, found) ↦ rw e (inr (ground arith, inr found))
        | inr (e, all) ↦ elim (nonempty (named disks)) [
          | inl (n, t) ↦ rw e (inr (ground arith, inl n))
          | inr (n, t) ↦ rw e (inl (ground arith, n, all))
        ]
      ])
