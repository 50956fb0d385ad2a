-- ===== src/Naming/Tests.antt =====
-- A machine with three interfaces: lo, a virtio interface behind a bridge with a hotplug slot, and one
-- that is no PCI device.
use actions.Text.Numbers.{itoa}
use actions.Prelude.{
  ℕ, ◌≡◌, refl, true, false, List, [], ◌∷◌, ◌++◌, Option, none, some, ok, err, ◌⊎◌, All,
  no_such_interface, no_net_dir, if◌then◌else◌,
}
use actions.Text.{Text, codes, text_eq, has_prefix, join, trim_space}
use actions.Text.Paths.{FilePath, path_text, clean_path, join_path}
use actions.Naming.Pci.{Sysfs, is_pci, hex_value}
use actions.Naming.{
  SysfsNamer, interface_name, hotplug_slot, predictable_name, sysfs_root, net_dir_of, carries,
  normal_mac, slots_dir, trim_ext, slot_at,
}
use actions.Naming.Found.{interface_name_lem, IsNameOf}
use actions.Naming.Slots.{hotplug_slot_lem, last_listed, first_of, pci_chain}
use actions.Naming.Precedence.{predictable_name_lem, IsPredictable, LeadsTo}

-- The first pair with this text.
abbrev at {ℓ} : {A : Type ℓ} → List (Text × A) → Text → Option A
at [] t = none
at ((s, a) ∷ rest) t = let others = at rest t in if text_eq s t then some a else others

abbrev device_text : Text
device_text = codes "/sys/devices/pci0000:00/0000:00:1e.0/0000:01:02.3/virtio1"

abbrev dirs : List (Text × List Text)
dirs =
    (codes "/sys/class/net", codes "lo" ∷ codes "eth1" ∷ codes "eth0" ∷ [])
    ∷ (codes "/sys/bus/pci/slots", codes "3" ∷ codes "3-1" ∷ codes "9" ∷ codes "12" ∷ [])
    ∷ []

abbrev files : List (Text × List ℕ)
files =
    (codes "/sys/class/net/lo/address", codes "00:00:00:00:00:00\n")
    ∷ (codes "/sys/class/net/eth1/address", codes "52:54:00:aa:bb:02\n")
    ∷ (codes "/sys/class/net/eth0/address", codes "52:54:00:aa:bb:01\n")
    ∷ (codes "/sys/bus/pci/slots/3/address", codes "0000:00:1e\n")
    ∷ (codes "/sys/bus/pci/slots/9/address", codes "0000:00:1e\n")
    ∷ (codes "/sys/bus/pci/slots/12/address", codes "0000:05:00\n")
    ∷ []

abbrev links : List (Text × FilePath)
links = (codes "/sys/class/net/eth0/device", clean_path device_text) ∷ []

abbrev sys : Sysfs
sys = record {
  read_dir = λ p. at dirs (path_text p);
  read_file = λ p. at files (path_text p);
  eval_symlinks = λ p. at links (path_text p);
}

abbrev namer : SysfsNamer
namer = record { root = []; predictable = true }

clean_runs : path_text (clean_path (codes "//sys/./a/../../sys/b/")) ≡ codes "/sys/b"
unfolding path_text clean_path text_eq has_prefix join
clean_runs = refl

clean_up_runs : path_text (clean_path (codes "a/../../b")) ≡ codes "../b"
unfolding path_text clean_path text_eq has_prefix join
clean_up_runs = refl

name_runs : interface_name sys namer (codes " 52:54:00:AA:BB:01") ≡ ok (codes "ens9f3")
unfolding interface_name text_eq path_text join_path clean_path has_prefix join carries trim_space
    predictable_name is_pci slot_at trim_ext itoa hex_value
name_runs = refl

kernel_runs : interface_name sys namer (codes "52:54:00:aa:bb:02") ≡ ok (codes "eth1")
unfolding interface_name text_eq path_text join_path clean_path has_prefix join carries trim_space
    predictable_name
kernel_runs = refl

unknown_runs : interface_name sys namer (codes "52:54:00:aa:bb:03") ≡ err no_such_interface
unfolding interface_name text_eq path_text join_path clean_path has_prefix join carries trim_space
unknown_runs = refl

bare_runs : interface_name sys (record namer { root = codes "/none" }) (codes "x") ≡ err no_net_dir
unfolding interface_name text_eq path_text join_path clean_path has_prefix join
bare_runs = refl

predictable_runs :
    predictable_name sys (sysfs_root []) (clean_path (codes "/sys/class/net/eth0"))
    ≡ ok (some (codes "ens9f3"))
unfolding predictable_name text_eq path_text join_path clean_path has_prefix join is_pci slot_at
    trim_ext itoa hex_value
predictable_runs = refl

abbrev interfaces : List Text
interfaces = codes "lo" ∷ codes "eth1" ∷ codes "eth0" ∷ []

interfaces_run : sys.read_dir (net_dir_of (sysfs_root namer.root)) ≡ some interfaces
unfolding text_eq path_text join_path clean_path has_prefix join
interfaces_run = refl

abbrev asked : Text
asked = codes " 52:54:00:AA:BB:01"

interface_name_lem_example :
    let dir = net_dir_of (sysfs_root namer.root) in
    (All (λ x. carries sys dir (normal_mac asked) x ≡ false) interfaces
      × (interface_name sys namer asked ≡ err no_such_interface))
    ⊎ ((before : List Text) × (entry : Text) × (after : List Text) × (interfaces
          ≡ before ++ entry ∷ after)
        × All (λ x. carries sys dir (normal_mac asked) x ≡ false) before
        × (carries sys dir (normal_mac asked) entry ≡ true)
        × IsNameOf sys
            (sysfs_root namer.root)
            namer.predictable
            dir
            entry
            (interface_name sys namer asked))
interface_name_lem_example = interface_name_lem sys namer asked interfaces interfaces_run

abbrev slot_entries : List Text
slot_entries = codes "3" ∷ codes "3-1" ∷ codes "9" ∷ codes "12" ∷ []

slots_run : sys.read_dir (slots_dir (sysfs_root [])) ≡ some slot_entries
unfolding text_eq path_text join_path clean_path has_prefix join
slots_run = refl

hotplug_slot_lem_example :
    hotplug_slot sys (sysfs_root []) (clean_path device_text)
    ≡ first_of
        (λ x. last_listed sys (slots_dir (sysfs_root [])) slot_entries (trim_ext x))
        (pci_chain (clean_path device_text).parts)
hotplug_slot_lem_example =
    hotplug_slot_lem sys (sysfs_root []) (clean_path device_text) slot_entries slots_run

predictable_name_lem_example :
    (dev : FilePath) × LeadsTo sys (clean_path (codes "/sys/class/net/eth0")) dev
    × IsPredictable sys (sysfs_root []) dev (codes "ens9f3")
predictable_name_lem_example =
    predictable_name_lem sys (sysfs_root []) (clean_path (codes "/sys/class/net/eth0"))
      (codes "ens9f3") predictable_runs
