-- ===== src/Naming/Precedence.antt =====
-- pkg/talosnet/naming.go: the forms of predictable names, and which comes first.
use actions.Prelude.{
  ℕ, ◌≤◌, ◌<◌, ◌≡◌, refl, subst, Bool, true, false, List, [], ◌∷◌, ◌++◌, Option, none, some, ok,
  ok-injective, on_ok, arith, Bool-cases, Option-cases, inl, inr, ◌⊎◌, ltb, ◌==◌,
}
use actions.Text.{Text, codes, trim_space}
use actions.Text.Numbers.{itoa, atoi}
use actions.Text.Paths.{FilePath, join_path}
use actions.Naming.Pci.{Sysfs, function_suffix, pci_path_name}
use actions.Naming.{
  nearest_pci, onboard_index, onboard_index_max, index_in, read_onboard_index, first_index,
  hotplug_slot, slot_name, device_name, name_of_pci, predictable_name, name_of_device,
}

-- An onboard index that is accepted.
abbrev pub IsOnboard : Option ℕ → Type 0
IsOnboard none = Unit
IsOnboard (some n) = (0 < n) × (n ≤ onboard_index_max)

onboard_index-IsOnboard : (r : Option (Bool × ℕ)) → IsOnboard (onboard_index r)
unfolding onboard_index
onboard_index-IsOnboard none = tt
onboard_index-IsOnboard (some (true, n)) = tt
onboard_index-IsOnboard (some (false, n)) = elim (Bool-cases (n == 0)) [
  | inl e ↦ rw e tt
  | inr e ↦ elim (Bool-cases (ltb onboard_index_max n)) [
    | inl t ↦ rw (e, t) tt
    | inr t ↦ rw (e, t) (ground arith, ground arith)
  ]
]

read_onboard_index-IsOnboard :
    (sys : Sysfs) (path : FilePath) → IsOnboard (read_onboard_index sys path)
unfolding read_onboard_index
read_onboard_index-IsOnboard sys path = elim (Option-cases (sys.read_file path)) [
  | inl e ↦ rw (e, index_in) tt
  | inr (raw, e) ↦ rw (e, index_in) (onboard_index-IsOnboard (atoi (trim_space raw)))
]

first_index-IsOnboard :
    (sys : Sysfs) (dev : FilePath) (attrs : List Text) → IsOnboard (first_index sys dev attrs)
unfolding first_index
first_index-IsOnboard sys dev [] = tt
first_index-IsOnboard sys dev (attr ∷ attrs) =
    let here = read_onboard_index-IsOnboard sys (join_path dev attr) in
    elim (Option-cases (read_onboard_index sys (join_path dev attr))) [
      | inl e ↦ rw e (first_index-IsOnboard sys dev attrs)
      | inr (n, e) ↦ rw e (rw e at here)
    ]

-- The forms of a predictable name of a PCI device.
abbrev pub IsPredictable : Sysfs → FilePath → FilePath → Text → Type 0
IsPredictable sys root dev t =
    let idx = first_index sys dev (codes "acpi_index" ∷ codes "index" ∷ []) in
    ((n : ℕ) × (idx ≡ some n) × (0 < n) × (n ≤ onboard_index_max) × (t ≡ codes "eno" ++ itoa n))
    ⊎ ((slot : ℕ) × (suffix : Text) × (idx ≡ none)
        × (hotplug_slot sys root dev ≡ some slot)
        × (function_suffix sys dev ≡ ok suffix)
        × (t ≡ codes "ens" ++ (itoa slot ++ suffix)))
    ⊎ ((idx ≡ none) × (hotplug_slot sys root dev ≡ none) × (pci_path_name sys dev ≡ ok t))

slot_name-IsPredictable :
    (sys : Sysfs) (root dev : FilePath) (slot : Option ℕ) (t : Text)
    → first_index sys dev (codes "acpi_index" ∷ codes "index" ∷ []) ≡ none
    → hotplug_slot sys root dev ≡ slot
    → slot_name sys dev slot ≡ ok (some t)
    → IsPredictable sys root dev t
unfolding slot_name
slot_name-IsPredictable sys root dev none t i s h =
    on_ok (pci_path_name sys dev) _ h (λ name made h1.
      let same : some name ≡ some t = ok-injective h1 in
      let eq : name ≡ t = cc same in
      inr (inr (i, s, subst (λ z. pci_path_name sys dev ≡ ok z) eq made)))
slot_name-IsPredictable sys root dev (some slot) t i s h =
    on_ok (function_suffix sys dev) _ h (λ suffix made h1.
      let same : some (codes "ens" ++ (itoa slot ++ suffix)) ≡ some t = ok-injective h1 in
      inr (inl (slot, suffix, i, s, made, cc same)))

device_name-IsPredictable :
    (sys : Sysfs) (root dev : FilePath) (idx : Option ℕ) (t : Text)
    → first_index sys dev (codes "acpi_index" ∷ codes "index" ∷ []) ≡ idx
    → device_name sys root dev idx ≡ ok (some t)
    → IsPredictable sys root dev t
unfolding device_name
device_name-IsPredictable sys root dev none t i h =
    slot_name-IsPredictable sys root dev (hotplug_slot sys root dev) t i refl h
device_name-IsPredictable sys root dev (some n) t i h =
    let bounded =
      subst IsOnboard i (first_index-IsOnboard sys dev (codes "acpi_index" ∷ codes "index" ∷ [])) in
    let same : some (codes "eno" ++ itoa n) ≡ some t = ok-injective h in
    inl (n, i, bounded.0, bounded.1, cc same)

-- The device link of an interface leads to this PCI device.
abbrev pub LeadsTo : Sysfs → FilePath → FilePath → Type 0
LeadsTo sys link_dir dev =
    (d : FilePath) × (sys.eval_symlinks (join_path link_dir (codes "device")) ≡ some d)
    × (nearest_pci d.rooted d.parts ≡ some dev)

-- A predictable name is that of the nearest PCI device of the interface, and it is "eno" with its
-- onboard index, within 1 and 16383, if it has one, or else "ens" with its hotplug slot and the
-- function, if it has one, or else the name by its PCI path.
pub predictable_name_lem :
    (sys : Sysfs) (root link_dir : FilePath) (t : Text)
    → predictable_name sys root link_dir ≡ ok (some t)
    → (dev : FilePath) × LeadsTo sys link_dir dev × IsPredictable sys root dev t
unfolding predictable_name
predictable_name_lem sys root link_dir t =
    elim (Option-cases (sys.eval_symlinks (join_path link_dir (codes "device")))) [
      | inl e ↦ rw (e, name_of_device) (λ h. absurd (some_of_none (ok-injective h)))
      | inr (d, e) ↦
          rw (e, name_of_device)
            (elim (Option-cases (nearest_pci d.rooted d.parts)) [
              | inl n ↦ rw (n, name_of_pci) (λ h. absurd (some_of_none (ok-injective h)))
              | inr (dev, n) ↦
                  rw (n, name_of_pci)
                    (λ h. (dev, (d, refl, n), device_name-IsPredictable sys root dev _ t refl h))
            ])
    ]
  where
    some_of_none : {u : Text} → none ≡ some u → ⊥
    some_of_none h = cc
