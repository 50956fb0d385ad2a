-- ===== src/Naming/Found.antt =====
-- pkg/talosnet/naming.go: which interface is named, and which name it is given.
use actions.Prelude.{
  ℕ, ◌≡◌, refl, ap, Bool, true, false, List, [], ◌∷◌, ◌++◌, Option, none, some, Result, ok, err,
  no_such_interface, All, Bool-cases, Option-cases, inl, inr, ◌⊎◌,
}
use actions.Text.{Text, codes}
use actions.Text.Paths.{FilePath, join_path, path_base}
use actions.Naming.Pci.{Sysfs, is_pci, match_pci, function_suffix, pci_path_name}
use actions.Naming.{
  nearest_pci, first_index, hotplug_slot, slot_name, device_name, name_of_pci, predictable_name,
  SysfsNamer, carries, chosen_name, name_of_device, given_name, name_from, interface_name,
  sysfs_root, net_dir_of, normal_mac,
}

-- nearestPCIDevice finds the innermost element of the path that is a PCI address, and answers with the
-- path up to it, or with none where no element is one.
pub nearest_pci_lem :
    (rooted : Bool) (parts : List Text)
    → ((nearest_pci rooted parts ≡ none) × All (λ x. is_pci x ≡ false) parts)
      ⊎ ((x : Text) × (below : List Text) × (up : List Text) × (parts ≡ below ++ x ∷ up)
          × All (λ y. is_pci y ≡ false) below
          × (is_pci x ≡ true)
          × (nearest_pci rooted parts ≡ some (record { rooted = rooted; parts = x ∷ up })))
unfolding nearest_pci
nearest_pci_lem rooted [] = inl (refl, tt)
nearest_pci_lem rooted (x ∷ up) = elim (Bool-cases (is_pci x)) [
  | inl e ↦ inr (x, [], up, refl, tt, e, rw e refl)
  | inr e ↦ elim (nearest_pci_lem rooted up) [
    | inl (h, all) ↦ inl (rw e h, (e, all))
    | inr (y, below, above, split, all, pci, h) ↦
        inr (y, x ∷ below, above, ap (◌∷◌ x) split, (e, all), pci, rw e h)
  ]
]

matched : (s : Text) → is_pci s ≡ true → (m : _) × (match_pci s ≡ some m)
unfolding is_pci
matched s = elim (Option-cases (match_pci s)) [ inl e ↦ rw e (λ h. cc) | inr (m, e) ↦ λ h. (m, e) ]

-- A function suffix is made without a panic, and so is a path name.
function_suffix_ok :
    (sys : Sysfs) (dev : FilePath)
    → is_pci (path_base dev) ≡ true
    → (t : Text) × (function_suffix sys dev ≡ ok t)
unfolding function_suffix
function_suffix_ok sys dev h = let (m, e) = matched (path_base dev) h in rw e (_, refl)

pci_path_name_ok :
    (sys : Sysfs) (dev : FilePath)
    → is_pci (path_base dev) ≡ true
    → (t : Text) × (pci_path_name sys dev ≡ ok t)
unfolding pci_path_name
pci_path_name_ok sys dev h = let (m, e) = matched (path_base dev) h in rw e (_, refl)

slot_name_ok :
    (sys : Sysfs) (dev : FilePath) (slot : Option ℕ)
    → is_pci (path_base dev) ≡ true
    → (r : Option Text) × (slot_name sys dev slot ≡ ok r)
unfolding slot_name
slot_name_ok sys dev none h = let (t, e) = pci_path_name_ok sys dev h in rw e (_, refl)
slot_name_ok sys dev (some slot) h = let (t, e) = function_suffix_ok sys dev h in rw e (_, refl)

device_name_ok :
    (sys : Sysfs) (root dev : FilePath) (idx : Option ℕ)
    → is_pci (path_base dev) ≡ true
    → (r : Option Text) × (device_name sys root dev idx ≡ ok r)
unfolding device_name
device_name_ok sys root dev none h = slot_name_ok sys dev (hotplug_slot sys root dev) h
device_name_ok sys root dev (some i) h = (_, refl)

-- A PCI device is named; no index is out of range.
name_of_nearest :
    (sys : Sysfs) (root : FilePath) (rooted : Bool) (parts : List Text)
    → (r : Option Text) × (name_of_pci sys root (nearest_pci rooted parts) ≡ ok r)
unfolding name_of_pci
name_of_nearest sys root rooted parts = elim (nearest_pci_lem rooted parts) [
  | inl (e, _) ↦ rw e (none, refl)
  | inr (x, below, up, _, _, pci, e) ↦ rw e (
      device_name_ok sys root (record { rooted = rooted; parts = x ∷ up })
        (first_index sys (record { rooted = rooted; parts = x ∷ up })
          (codes "acpi_index" ∷ codes "index" ∷ []))
        (unfold path_base in pci))
]

predictable_name_ok :
    (sys : Sysfs) (root link_dir : FilePath)
    → (r : Option Text) × (predictable_name sys root link_dir ≡ ok r)
unfolding predictable_name
predictable_name_ok sys root link_dir =
    elim (Option-cases (sys.eval_symlinks (join_path link_dir (codes "device")))) [
      | inl e ↦ rw (e, name_of_device) (none, refl)
      | inr (d, e) ↦ rw (e, name_of_device) (name_of_nearest sys root d.rooted d.parts)
    ]

-- The name of an interface that was found: the kernel's name, or the predictable one where there is
-- one.
abbrev pub IsNameOf : Sysfs → FilePath → Bool → FilePath → Text → Result Text → Type 0
IsNameOf sys root predictable net_dir entry r =
    ((predictable ≡ false) × (r ≡ ok entry))
    ⊎ ((predictable ≡ true)
        × ((found : Option Text) × (predictable_name sys root (join_path net_dir entry) ≡ ok found)
            × (r ≡ ok (chosen_name found entry))))

given_name-IsNameOf :
    (sys : Sysfs) (root : FilePath) (predictable : Bool) (net_dir : FilePath) (entry : Text)
    → IsNameOf sys root predictable net_dir entry (given_name sys root predictable net_dir entry)
given_name-IsNameOf sys root false net_dir entry = inl (refl, unfold given_name in refl)
given_name-IsNameOf sys root true net_dir entry =
    let (found, e) = predictable_name_ok sys root (join_path net_dir entry) in
    inr (refl, (found, e, unfold given_name in rw e refl))

name_from_lem :
    (sys : Sysfs) (root : FilePath) (predictable : Bool) (dir : FilePath) (want : Text)
    (entries : List Text)
    → let r = name_from sys root predictable dir want entries in
      (All (λ x. carries sys dir want x ≡ false) entries × (r ≡ err no_such_interface))
      ⊎ ((before : List Text) × (entry : Text) × (after : List Text) × (entries
            ≡ before ++ entry ∷ after)
          × All (λ x. carries sys dir want x ≡ false) before
          × (carries sys dir want entry ≡ true)
          × IsNameOf sys root predictable dir entry r)
unfolding name_from
name_from_lem sys root predictable dir want [] = inl (tt, refl)
name_from_lem sys root predictable dir want (x ∷ xs) = elim (Bool-cases (carries sys dir want x)) [
  | inl e ↦ inr ([], x, xs, refl, tt, e, rw e (given_name-IsNameOf sys root predictable dir x))
  | inr e ↦ elim (name_from_lem sys root predictable dir want xs) [
    | inl (all, h) ↦ inl ((e, all), rw e h)
    | inr (before, entry, after, split, all, c, h) ↦
        inr (x ∷ before, entry, after, ap (◌∷◌ x) split, (e, all), c, rw e h)
  ]
]

-- Name answers with an error where sysfs has no list of interfaces or none of them carries the MAC
-- address. Else it names the first that carries it, and never panics: with the kernel's name, or, where
-- predictable names are asked for, with the predictable one if there is one.
pub interface_name_lem :
    (sys : Sysfs) (n : SysfsNamer) (mac : Text) (entries : List Text)
    → sys.read_dir (net_dir_of (sysfs_root n.root)) ≡ some entries
    → let dir = net_dir_of (sysfs_root n.root) in
      (All (λ x. carries sys dir (normal_mac mac) x ≡ false) entries
        × (interface_name sys n mac ≡ err no_such_interface))
      ⊎ ((before : List Text) × (entry : Text) × (after : List Text) × (entries
            ≡ before ++ entry ∷ after)
          × All (λ x. carries sys dir (normal_mac mac) x ≡ false) before
          × (carries sys dir (normal_mac mac) entry ≡ true)
          × IsNameOf sys (sysfs_root n.root) n.predictable dir entry (interface_name sys n mac))
unfolding interface_name
interface_name_lem sys n mac entries h = rw h (
    name_from_lem sys (sysfs_root n.root) n.predictable (net_dir_of (sysfs_root n.root))
      (normal_mac mac) entries)
