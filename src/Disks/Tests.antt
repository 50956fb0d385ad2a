-- ===== src/Disks/Tests.antt =====
-- The selection at a machine with three disks.
use actions.Prelude.{
  ℕ, ◌≡◌, refl, ◌⊎◌, Bool, true, false, List, [], ◌∷◌, ◌++◌, Option, none, some, Result, ok, err,
  All, filter, no_disk_matches, no_such_disk, not_eligible, probe_failed, if◌then◌else◌,
}
use actions.Prelude.Sort.{IsSorted, sort, insert}
use actions.Text.{Text, codes, text_eq, text_leb}
use actions.Disks.{Disk, Enumeration, eligible, name_leb, enumerate, sort_by_name}
use actions.Disks.Selector.{Selector, matches, size_fits, size_match, fields_fit, kind_fits}
use actions.Disks.Select.{take_first, select, select_path, resolve}
use actions.Disks.Chosen.{IsChosen, stands_at, select_lem, select_path_lem}
use actions.Disks.Listed.{Accounts, enumerate_lem}

abbrev disk_named : Text → Text → ℕ → Disk
disk_named name transport size = record {
  name = name;
  dev_path = codes "/dev/" ++ name;
  size = size;
  transport = transport;
  rotational = false;
  readonly = false;
  cdrom = false;
  model = [];
  serial = [];
  modalias = [];
  uuid = [];
  wwid = [];
  bus_path = [];
}

abbrev disks : List Disk
disks =
    disk_named (codes "sdb") (codes "sata") 500
    ∷ disk_named (codes "loop0") [] 900
    ∷ disk_named (codes "sda") (codes "sata") 400
    ∷ []

abbrev large : Selector
large = record {
  size = some (record { op = codes ">="; size = 100 });
  model = [];
  serial = [];
  modalias = [];
  uuid = [];
  wwid = [];
  bus_path = [];
  kind = codes "ssd";
  raw = codes "{}";
}

abbrev selects_first : Result (Disk × List Disk) → Bool
selects_first (ok (d, ds)) = text_eq d.name (codes "sda")
selects_first (err e) = false

select_runs : selects_first (select text_eq disks large) ≡ true
unfolding select take_first sort_by_name sort insert text_leb matches eligible text_eq size_fits
    size_match fields_fit kind_fits
select_runs = refl

select_lem_example :
    ((d : Disk) × (ds : List Disk) × (select text_eq disks large ≡ ok (d, d ∷ ds))
      × IsChosen text_eq disks large d)
    ⊎ ((select text_eq disks large ≡ err no_disk_matches)
        × All (λ d. matches text_eq large d ≡ false) disks)
select_lem_example = select_lem text_eq disks large

abbrev by_id : Text → Option Text
by_id path = if text_eq path (codes "/dev/disk/by-id/a") then some (codes "/dev/sda") else none

select_path_lem_example :
    ((d : Disk) × (before after : List Disk) × (disks ≡ before ++ d ∷ after)
      × (filter (stands_at (resolve by_id (codes "/dev/sda")) (codes "/dev/sda")) before ≡ [])
      × (stands_at (resolve by_id (codes "/dev/sda")) (codes "/dev/sda") d ≡ true)
      × (select_path by_id disks (codes "/dev/sda")
          ≡ (if eligible d then ok d else err not_eligible)))
    ⊎ ((select_path by_id disks (codes "/dev/sda") ≡ err no_such_disk)
        × (filter (stands_at (resolve by_id (codes "/dev/sda")) (codes "/dev/sda")) disks ≡ []))
select_path_lem_example = select_path_lem by_id disks (codes "/dev/sda")

abbrev probe : Text → Result Disk
probe path =
    if text_eq path (codes "/dev/sdb")
    then err probe_failed
    else ok (disk_named [] (codes "sata") 100)

enumerate_lem_example :
    (out : Enumeration) × (enumerate (codes "/dev") probe (some (codes "sdb" ∷ codes "sda" ∷ []))
      ≡ ok out)
    × IsSorted name_leb out.disks
    × Accounts (codes "/dev") probe (codes "sdb" ∷ codes "sda" ∷ []) out
enumerate_lem_example = enumerate_lem (codes "/dev") probe (codes "sdb" ∷ codes "sda" ∷ [])
