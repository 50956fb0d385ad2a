-- ===== src/Disks.antt =====
-- pkg/disks/disk.go and pkg/disks/enumerate.go: the disks of the machine. What the operating system
-- answers is given by parameters: the names in /sys/block, and what the Prober reads of a device.
pub mod Selector
pub mod Select
pub mod Chosen
pub mod Listed
pub mod Prober
mod Tests
use actions.Prelude.{
  ℕ, Bool, true, false, not, ◌&&◌, ◌||◌, List, [], ◌∷◌, ◌++◌, Option, none, some, Error, Result, ok,
  err, no_block_dir, if◌then◌else◌,
}
use actions.Prelude.Sort.{sort}
use actions.Text.{Text, codes, text_eq, text_leb, has_member}

-- Disk
pub record Disk : Type 0 where
  pub name : Text
  pub dev_path : Text
  pub size : ℕ
  pub transport : Text
  pub rotational : Bool
  pub readonly : Bool
  pub cdrom : Bool
  pub model : Text
  pub serial : Text
  pub modalias : Text
  pub uuid : Text
  pub wwid : Text
  pub bus_path : Text

-- Eligible
unfoldable pub eligible : Disk → Bool
eligible d = not (text_eq d.transport []) && not d.readonly && not d.cdrom

-- The order of SortByName. Go tests for less-than; the names are distinct in a directory.
abbrev pub name_leb : Disk → Disk → Bool
name_leb a b = text_leb a.name b.name

-- SortByName
unfoldable pub sort_by_name : List Disk → List Disk
sort_by_name list = sort name_leb list

-- Enumeration: the disks, and the entries whose probe failed with their errors. The map of the
-- source has one key for each entry, since the names of a directory are distinct.
pub record Enumeration : Type 0 where
  pub disks : List Disk
  pub skipped : List (Text × Error)

module _ (dev_root : Text) (probe : Text → Result Disk) where
  -- filepath.Join(devRoot, name), for a clean root and a name without a slash.
  abbrev pub dev_node : Text → Text
  dev_node name = dev_root ++ (codes "/" ++ name)

  -- One entry of /sys/block, with what its probe answers, before the rest.
  unfoldable pub note : Text → Result Disk → Enumeration → Enumeration
  note name (err e) rest = record rest { skipped = (name, e) ∷ rest.skipped }
  note name (ok d) rest = record rest {
    disks = record d { name = name; dev_path = dev_node name } ∷ rest.disks;
  }

  -- The loop of Enumerate.
  unfoldable pub probe_all : List Text → Enumeration
  probe_all [] = record { disks = []; skipped = [] }
  probe_all (name ∷ names) = note name (probe (dev_node name)) (probe_all names)

  -- Enumerate; `entries` is none where the directory cannot be listed.
  unfoldable pub enumerate : Option (List Text) → Result Enumeration
  enumerate none = err no_block_dir
  enumerate (some names) =
      let out = probe_all names in ok (record out { disks = sort_by_name out.disks })

-- The loop of Transports, from the transports that it has seen. The map `seen` holds those of `out`.
unfoldable pub transports_from : List Text → List Disk → List Text
transports_from out [] = out
transports_from out (d ∷ list) =
    let rest = transports_from out list in
    let more = transports_from (out ++ d.transport ∷ []) list in
    if text_eq d.transport [] || has_member out d.transport then rest else more

-- Transports
unfoldable pub transports : List Disk → List Text
transports list = sort text_leb (transports_from [] list)
