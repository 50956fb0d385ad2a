-- ===== src/Partition/Tests.antt =====
-- Devices and tables.
use actions.Text.Numbers.{itoa, read_nat}
use actions.Prelude.{
  ℕ, ◌≡◌, ◌≢◌, refl, arith, ◌≤◌, ◌⊎◌, inr, Bool, true, false, [], ◌∷◌, Option, none, some, ok, leb,
  if◌then◌else◌,
}
use actions.Text.{Text, codes, text_eq, join, trim_space, contains}
use actions.Text.Paths.{clean_path, path_text}
use actions.Partition.Node.{
  NodeOptions, with_defaults, Machine, wait_from, call_mkdir, call_remove, call_mknod, Ensured,
  after_wait, resolved_disk, ensure_node_at,
}
use actions.Partition.Ensured.{ensure_node_at_appears, ensure_node_at_ends, IsRefused, IsPrivate}
use actions.Partition.{
  device, Partition, Table, gpt, locate, device_prefix, find_label, base_name, ends_in_digit,
}
use actions.Partition.Names.{device_injective}

nvme_runs : device (codes "/dev/nvme0n1") 12 ≡ codes "/dev/nvme0n1p12"
unfolding device device_prefix text_eq itoa
nvme_runs = refl

by_id_runs : device (codes "/dev/disk/by-id/x") 3 ≡ codes "/dev/disk/by-id/x-part3"
unfolding device device_prefix itoa
by_id_runs = refl

device_injective_example : device (codes "/dev/nvme0n1") 12 ≢ device (codes "/dev/nvme0n11") 2
unfolding base_name ends_in_digit contains text_eq
device_injective_example =
    device_injective (codes "/dev/nvme0n1") (codes "/dev/nvme0n11") 12 2 refl refl
      (inr (omega arith))

abbrev table : Option Table
table = some (
    gpt 512 (none ∷ some (record { index = 0; start = 2048; last = 4095; name = codes "EFI" }) ∷ [])
      512)

abbrev efi : Partition
efi = record { index = 2; offset = 1048576; size = 1048576 }

locate_runs : locate table (codes "EFI") ≡ ok efi
unfolding locate find_label text_eq
locate_runs = refl

-- A machine whose kernel node appears at a time, or, with none, never; every look takes 1 ms, the
-- reading of the clock 2 microseconds, every sleep a microsecond longer than asked for.
abbrev machine : (Text → ℕ → Bool) → Machine
machine there = record {
  there = there;
  look = λ k. 1000000;
  lag = λ k. 2000;
  overslept = λ k. 1000;
  eval_symlinks =
      λ d. if text_eq d (codes "/dev/disk/by-id/x") then some (codes "/dev/nvme0n1") else none;
  read_file = λ p.
      if text_eq (path_text p) (codes "/sys/block/nvme0n1/nvme0n1p3/dev")
      then some (codes "259:3\n")
      else none;
  mkdir_all = λ d. true;
  mknod = λ p major minor. ok tt;
}

abbrev late : Machine
late = machine (λ node t. leb 3000000000 t)

abbrev never : Machine
never = machine (λ node t. false)

abbrev defaults : NodeOptions
defaults = record { sys_root = []; wait = 0; poll = 0; private_dir = [] }

late_stays : (t : ℕ) → 3000000000 ≤ t → leb 3000000000 t ≡ true
late_stays t h = ground arith

ensure_node_at_appears_example :
    ensure_node_at late 5 (codes "/dev/sda") 3 defaults
    ≡ some (record { result = ok (device (codes "/dev/sda") 3); calls = [] })
ensure_node_at_appears_example =
    ensure_node_at_appears late 5 (codes "/dev/sda") 3 defaults 3000000000 2000 (omega arith)
      (λ j. omega arith) late_stays

waited_runs : wait_from never (codes "x") 405 200 4 5 0 ≡ some false
unfolding wait_from
waited_runs = refl

private_runs :
    after_wait never (with_defaults defaults) (codes "/dev/disk/by-id/x") 3 false ≡ record {
      result = ok (codes "/run/partition-nodes/nvme0n1p3");
      calls =
          call_mkdir (codes "/run/partition-nodes")
          ∷ call_remove (clean_path (codes "/run/partition-nodes/nvme0n1p3"))
          ∷ call_mknod (clean_path (codes "/run/partition-nodes/nvme0n1p3")) 259 3
          ∷ [];
    }
unfolding after_wait text_eq base_name device device_prefix resolved_disk itoa join trim_space
    read_nat
private_runs = refl

ensure_node_at_ends_example :
    (o : Ensured) × (ensure_node_at never 5 (codes "/dev/disk/by-id/x") 3 defaults ≡ some o)
    × (((t : ℕ) × (false ≡ true)
          × (o ≡ record { result = ok (device (codes "/dev/disk/by-id/x") 3); calls = [] }))
        ⊎ IsRefused never (with_defaults defaults) (codes "/dev/disk/by-id/x") 3 o
        ⊎ IsPrivate never (with_defaults defaults) (codes "/dev/disk/by-id/x") 3 o)
ensure_node_at_ends_example = ensure_node_at_ends never 5 (codes "/dev/disk/by-id/x") 3 defaults
