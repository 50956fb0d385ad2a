-- ===== src/Naming.antt =====
-- pkg/talosnet/naming.go: SysfsNamer, which finds the interface that carries a MAC address and gives it
-- the kernel's or udev's name, over the files of sysfs.
pub mod Pci
pub mod Found
pub mod Slots
pub mod Precedence
mod Tests
use actions.Prelude.{
  ℕ, Bool, true, false, not, ◌&&◌, ◌||◌, List, [], ◌∷◌, ◌++◌, Option, none, some, Result, ok, err,
  or_err, ◌>>=◌, no_net_dir, no_such_interface, leb, ltb, ◌==◌, map, ◌+◌, if◌then◌else◌,
}
use actions.Text.{Text, codes, text_eq, trim_space}
use actions.Text.Numbers.{itoa, atoi}
use actions.Text.Paths.{FilePath, clean_path, join_path, path_base}
use actions.Naming.Pci.{Sysfs, is_pci, function_suffix, pci_path_name}

-- onboardIndexMax
abbrev pub onboard_index_max : ℕ
onboard_index_max = 16383

-- strings.ToLower on ASCII: no other character has a letter or a digit of a MAC address in lower case.
abbrev pub to_lower : Text → Text
to_lower = map (λ c. if leb 65 c && leb c 90 then c + 32 else c)

abbrev pub normal_mac : Text → Text
normal_mac mac = to_lower (trim_space mac)

-- nearestPCIDevice: filepath.Dir leaves the innermost element out, and ends at the root or at ".".
unfoldable pub nearest_pci : Bool → List Text → Option FilePath
nearest_pci rooted [] = none
nearest_pci rooted (x ∷ up) =
    let parent = nearest_pci rooted up in
    if is_pci x then some (record { rooted = rooted; parts = x ∷ up }) else parent

-- An index that is positive and not above the greatest.
unfoldable pub onboard_index : Option (Bool × ℕ) → Option ℕ
onboard_index none = none
onboard_index (some (negative, n)) =
    if negative || n == 0 || ltb onboard_index_max n then none else some n

-- The index in a file.
unfoldable pub index_in : Option Text → Option ℕ
unfolding onboard_index atoi trim_space
index_in none = none
index_in (some raw) = onboard_index (atoi (trim_space raw))

-- readOnboardIndex
unfoldable pub read_onboard_index : Sysfs → FilePath → Option ℕ
unfolding index_in
read_onboard_index sys path = index_in (sys.read_file path)

abbrev index_or : Option ℕ → Option ℕ → Option ℕ
index_or (some idx) rest = some idx
index_or none rest = rest

-- The first attribute with an index.
unfoldable pub first_index : Sysfs → FilePath → List Text → Option ℕ
unfolding read_onboard_index
first_index sys dev [] = none
first_index sys dev (attr ∷ attrs) =
    index_or (read_onboard_index sys (join_path dev attr)) (first_index sys dev attrs)

-- A map from PCI addresses to slots: the last assignment comes first.
abbrev pub Slots : Type 0
Slots = List (Text × ℕ)

unfoldable pub slot_at : Slots → Text → Option ℕ
slot_at [] address = none
slot_at ((a, n) ∷ slots) address =
    let rest = slot_at slots address in if text_eq a address then some n else rest

-- What an entry with this number and this address file assigns.
unfoldable pub assign : Option (Bool × ℕ) → Option Text → Slots → Slots
assign (some (negative, n)) (some raw) slots =
    if negative && not (n == 0) then slots else (trim_space raw, n) ∷ slots
assign _ _ slots = slots

-- The loop over /sys/bus/pci/slots.
unfoldable pub collect_slots : Sysfs → FilePath → Slots → List Text → Slots
unfolding assign
collect_slots sys dir slots [] = slots
collect_slots sys dir slots (entry ∷ entries) =
    collect_slots sys dir
      (assign (atoi entry) (sys.read_file (join_path (join_path dir entry) (codes "address")))
        slots)
      entries

-- strings.TrimSuffix(name, filepath.Ext(name)): what stands before the last dot.
unfoldable pub trim_ext : Text → Text
trim_ext name = before_dot name (last_dot name)
  where
    last_dot : Text → Option Text
    last_dot [] = none
    last_dot (c ∷ s) = elim (last_dot s) [
      | some before ↦ some (c ∷ before)
      | none ↦ if c == b'.' then some [] else none
    ]

    before_dot : Text → Option Text → Text
    before_dot name none = name
    before_dot name (some before) = before

-- The walk from the device up through its PCI ancestors.
unfoldable pub slot_of : Slots → List Text → Option ℕ
slot_of slots [] = none
slot_of slots (x ∷ up) =
    let above = slot_of slots up in
    if is_pci x
    then elim (slot_at slots (trim_ext x)) [ none ↦ above | some slot ↦ some slot ]
    else none

abbrev pub slots_dir : FilePath → FilePath
slots_dir root = join_path (join_path (join_path root (codes "bus")) (codes "pci")) (codes "slots")

-- The slot of a device, given the entries of the directory.
unfoldable pub slot_among : Sysfs → FilePath → List Text → Option (List Text) → Option ℕ
unfolding collect_slots slot_of
slot_among sys dir parts none = none
slot_among sys dir parts (some entries) = slot_of (collect_slots sys dir [] entries) parts

-- hotplugSlot
unfoldable pub hotplug_slot : Sysfs → FilePath → FilePath → Option ℕ
unfolding slot_among
hotplug_slot sys root dev =
    slot_among sys (slots_dir root) dev.parts (sys.read_dir (slots_dir root))

-- The name of a device that has none by its index.
unfoldable pub slot_name : Sysfs → FilePath → Option ℕ → Result (Option Text)
unfolding function_suffix pci_path_name
slot_name sys dev (some slot) = do
  suffix ← function_suffix sys dev
  ok (some (codes "ens" ++ (itoa slot ++ suffix)))
slot_name sys dev none = do name ← pci_path_name sys dev; ok (some name)

-- The name of a PCI device: by its index, its slot, or its path.
unfoldable pub device_name : Sysfs → FilePath → FilePath → Option ℕ → Result (Option Text)
unfolding slot_name hotplug_slot
device_name sys root dev (some idx) = ok (some (codes "eno" ++ itoa idx))
device_name sys root dev none = slot_name sys dev (hotplug_slot sys root dev)

-- predictableName once the device link is resolved, and once its PCI device is found.
unfoldable pub name_of_pci : Sysfs → FilePath → Option FilePath → Result (Option Text)
unfolding device_name first_index
name_of_pci sys root none = ok none
name_of_pci sys root (some dev) =
    device_name sys root dev (first_index sys dev (codes "acpi_index" ∷ codes "index" ∷ []))

-- predictableName once the device link is resolved.
unfoldable pub name_of_device : Sysfs → FilePath → Option FilePath → Result (Option Text)
unfolding name_of_pci nearest_pci
name_of_device sys root none = ok none
name_of_device sys root (some device) =
    name_of_pci sys root (nearest_pci device.rooted device.parts)

-- predictableName
unfoldable pub predictable_name : Sysfs → FilePath → FilePath → Result (Option Text)
unfolding name_of_device
predictable_name sys root link_dir =
    name_of_device sys root (sys.eval_symlinks (join_path link_dir (codes "device")))

-- SysfsNamer
pub record SysfsNamer : Type 0 where
  pub root : Text
  pub predictable : Bool

-- The address file of an interface carries the MAC.
unfoldable pub carries : Sysfs → FilePath → Text → Text → Bool
carries sys net_dir want entry =
    elim (sys.read_file (join_path (join_path net_dir entry) (codes "address"))) [
      | none ↦ false
      | some address ↦ text_eq (normal_mac address) want
    ]

-- The predictable name, or else the kernel's.
abbrev pub chosen_name : Option Text → Text → Text
chosen_name none kernel_name = kernel_name
chosen_name (some found) kernel_name = found

-- The name that is given to an interface that was found.
unfoldable pub given_name : Sysfs → FilePath → Bool → FilePath → Text → Result Text
given_name sys root false net_dir kernel_name = ok kernel_name
given_name sys root true net_dir kernel_name = do
  found ← predictable_name sys root (join_path net_dir kernel_name)
  ok (chosen_name found kernel_name)

-- The loop over the interfaces.
unfoldable pub name_from : Sysfs → FilePath → Bool → FilePath → Text → List Text → Result Text
unfolding given_name
name_from sys root predictable net_dir want [] = err no_such_interface
name_from sys root predictable net_dir want (entry ∷ entries) =
    let rest = name_from sys root predictable net_dir want entries in
    if carries sys net_dir want entry then given_name sys root predictable net_dir entry else rest

-- The mount point of sysfs.
abbrev pub sysfs_root : Text → FilePath
sysfs_root root = clean_path (if text_eq root [] then codes "/sys" else root)

abbrev pub net_dir_of : FilePath → FilePath
net_dir_of root = join_path (join_path root (codes "class")) (codes "net")

-- Name
unfoldable pub interface_name : Sysfs → SysfsNamer → Text → Result Text
unfolding name_from
interface_name sys n mac = do
  entries ← or_err (sys.read_dir (net_dir_of (sysfs_root n.root))) no_net_dir
  name_from sys (sysfs_root n.root) n.predictable (net_dir_of (sysfs_root n.root)) (normal_mac mac)
      entries
