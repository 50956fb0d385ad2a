-- ===== src/Install/OnDisk.antt =====
-- talos2disk/run.go: execute on the bytes of a disk. The steps are those of the packages: image.Write
-- under image.Retry, partition.Locate, meta.Locate, partition.EnsureNode, cmdline.Apply on the files of
-- a partition, and meta.WriteTag.
use actions.Prelude.{
  ℕ, zero, suc, Bool, List, [], ◌++◌, Option, none, some, Error, Result, ok, err, ◌>>=◌, length,
  drop, cancelled, ltb, ◌^◌, if◌then◌else◌,
}
use actions.Text.{Text, codes}
use actions.Uki.{Bytes, PeFile}
use actions.Files.{Files, Faults}
use actions.Http.{Stream, Transport}
use actions.Partition.{Table, locate}
use actions.Partition.Node.{NodeOptions, Machine, Ensured, ensure_node_at}
use actions.Image.{Attempts, Ended, retry}
use actions.Image.Write.{Target, Copied, write_image_to}
use actions.Meta.{AdvLib, meta_locate, write_tag}
use actions.Cmdline.{Outcome, apply}
use actions.Install.{Inputs}
use actions.Install.Run.{World}

-- What the packages ask of others. The transport and the device may answer otherwise in every attempt
-- to write the image. `files_of` is what the vfat driver reads in the partition of a node, and
-- `store_files` the disk after its files were changed; the table of a disk is the one that go-diskfs
-- reads.
pub record Packages : Type 1 where
  pub http : ℕ → Transport
  pub zstd : Stream → Option Stream
  pub target : ℕ → Target
  pub duration : ℕ → ℕ
  pub done : ℕ → Bool
  pub start : ℕ
  pub table_of : Bytes → Option Table
  pub adv : AdvLib
  pub machine : Machine
  pub node_start : ℕ
  pub nodes : NodeOptions
  pub pe_file : Bytes → Option PeFile
  pub faults : Text → Faults
  pub glob : Text → Option (List Text)
  pub mount_fails : Bool
  pub files_of : Bytes → Text → Files
  pub store_files : Bytes → Text → Files → Bytes

-- MetalNetworkPlatformConfig
abbrev pub metal_network_key : ℕ
metal_network_key = 0x0a

-- The disk after bytes were written from its start on.
abbrev pub overlay : Bytes → Bytes → Bytes
overlay new disk = new ++ drop (length new) disk

-- The disk after so many attempts.
unfoldable pub overlaid : (ℕ → Copied) → ℕ → Bytes → Bytes
overlaid attempt zero disk = disk
overlaid attempt (suc n) disk = overlay (attempt n).on_device (overlaid attempt n disk)

-- The window that Retry takes for a duration, an int64 kept modulo 2^64: with a negative one it does as
-- with none.
abbrev pub window_of : ℕ → ℕ
window_of duration = if ltb duration (2 ^ 63) then duration else 0

-- An error of Apply.
abbrev pub applied : Option Error → Result (Unit {0})
applied none = ok tt
applied (some e) = err e

module _ (pk : Packages) where
  -- The function that execute gives to Retry.
  unfoldable pub attempt : Text → Text → ℕ → Copied
  attempt url dev k = write_image_to (pk.http k) pk.zstd (pk.target k) url dev

  abbrev pub attempts : Text → Text → Attempts
  attempts url dev = record {
    outcome = λ k. (attempt url dev k).result;
    duration = pk.duration;
    done = pk.done;
  }

  -- What Retry leaves; it always ends.
  unfoldable pub retried : Text → Text → Bytes → Option Ended → Result (Unit {0}) × Bytes
  unfolding overlaid
  retried url dev disk none = (err cancelled, disk)
  retried url dev disk (some e) = (e.result, overlaid (attempt url dev) e.attempts disk)

  unfoldable pub download : ℕ → Bytes → Text → Text → Result (Unit {0}) × Bytes
  unfolding retried retry
  download window disk url dev = retried url dev disk (retry pk.start window (attempts url dev))

  -- The node that EnsureNode returns; it always ends, and does not change the disk.
  unfoldable pub node_for : Option Ensured → Result Text
  node_for none = err cancelled
  node_for (some e) = e.result

  unfoldable pub edited_disk : Bytes → Text → Outcome → Result (Unit {0}) × Bytes
  edited_disk disk node o = (applied o.error, pk.store_files disk node o.files)

  -- The call of Apply, with its default pattern and mount point.
  unfoldable pub edit_disk : Bytes → Text → Text → Bool → Result (Unit {0}) × Bytes
  unfolding edited_disk
  edit_disk disk node args strip =
      edited_disk disk node
        (apply pk.pe_file pk.faults pk.glob pk.mount_fails (pk.files_of disk node) node args [] []
          strip).0

  unfoldable pub tagged_disk : Bytes → Result Bytes → Result (Unit {0}) × Bytes
  tagged_disk disk (err e) = (err e, disk)
  tagged_disk disk (ok out) = (ok tt, out)

  -- The machine of an installation: the state is the disk.
  unfoldable pub disk_world : Inputs → World Bytes
  unfolding download node_for edit_disk tagged_disk ensure_node_at
  disk_world in_ = record {
    image_written = download (window_of in_.retry_window);
    efi_index = λ disk dev. locate (pk.table_of disk) (codes "EFI") >>= λ efi. ok efi.index;
    meta_found = λ disk dev. meta_locate (pk.table_of disk) >>= λ p. ok tt;
    node_of = λ disk dev index.
        (node_for (ensure_node_at pk.machine pk.node_start dev index pk.nodes), disk);
    args_applied = edit_disk;
    tag_written =
        λ disk dev doc. tagged_disk disk (write_tag pk.adv pk.table_of disk metal_network_key doc);
  }
