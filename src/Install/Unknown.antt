-- ===== src/Install/Unknown.antt =====
-- talos2disk/run.go: warnUnknownDisk, as the warnings that it logs, and diskPaths.
use actions.Prelude.{
  ℕ, ◌+◌, Bool, true, false, not, ◌&&◌, ◌||◌, List, [], ◌∷◌, ◌++◌, Option, none, some, any, map,
  length, ltb, if◌then◌else◌,
}
use actions.Text.{Text, text_eq}
use actions.Disks.{Disk}
use actions.Hardware.{Hardware, out_of_band}
use actions.Hardware.OutOfBand.{Inventory}

-- The chosen disk is not in spec.disks; its serial number is not in the inventory.
pub data Warning : Type 0 where
  not_declared : Text → Warning
  not_in_inventory : Text → Text → Warning

-- A path behind its links, as far as they can be resolved.
unfoldable pub behind_links : Option Text → Text → Text
behind_links none device = device
behind_links (some r) device = r

-- An entry of spec.disks is the disk.
abbrev pub is_device : (Text → Option Text) → Text → Text → Bool
is_device eval dev device = text_eq (behind_links (eval device) device) dev || text_eq device dev

-- The loop over spec.disks: how many name a device, and whether one is the disk.
unfoldable pub count_declared : (Text → Option Text) → Text → ℕ → Bool → List Text → ℕ × Bool
count_declared eval dev declared known [] = (declared, known)
count_declared eval dev declared known (device ∷ disks) =
    let skipped = count_declared eval dev declared known disks in
    let counted =
      count_declared eval dev (declared + 1) (if is_device eval dev device then true else known)
        disks in
    if text_eq device [] then skipped else counted

-- The warning about spec.disks.
unfoldable pub declared_warnings : (Text → Option Text) → List Text → Text → List Warning
unfolding count_declared
declared_warnings eval disks dev =
    let (declared, known) = count_declared eval dev 0 false disks in
    if ltb 0 declared && not known then not_declared dev ∷ [] else []

-- The warning about the inventory.
unfoldable pub inventory_warnings : Option Inventory → Disk → List Warning
inventory_warnings none d = []
inventory_warnings (some inv) d =
    if ltb 0 (length inv.block_devices)
      && not (text_eq d.serial [])
      && not (any (λ b. text_eq b.serial_number d.serial) inv.block_devices)
    then not_in_inventory d.dev_path d.serial ∷ []
    else []

-- warnUnknownDisk
unfoldable pub warn_unknown_disk : (Text → Option Text) → Hardware → Disk → List Warning
unfolding declared_warnings inventory_warnings
warn_unknown_disk eval hw d =
    declared_warnings eval hw.spec.disks d.dev_path ++ inventory_warnings (out_of_band hw) d

-- diskPaths
unfoldable pub disk_paths : List Disk → List Text
disk_paths = map (λ d. d.dev_path)
