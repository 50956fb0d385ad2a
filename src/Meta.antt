-- ===== src/Meta.antt =====
-- pkg/meta/meta.go: the tags in the META partition. The disk is its bytes, and a device keeps its
-- size; `table_of` is the partition table that go-diskfs reads from it, and the interface `AdvLib` is
-- go-adv. What is written before an error is not kept.
pub mod Spliced
pub mod ReadBack
pub mod Kept
pub mod Sample
mod Tests
use actions.Prelude.{
  ℕ, ◌+◌, ◌-◌, ◌^◌, ◌&&◌, ltb, Bool, List, [], ◌∷◌, ◌++◌, Option, none, some, Error, Result, ok,
  err, ◌>>=◌, ◌>>◌, guard, or_err, meta_too_small, bad_adv, not_serialized, does_not_fit,
  short_write, length, take, drop, leb, if◌then◌else◌,
}
use actions.Text.{codes}
use actions.Uki.{Bytes}
use actions.Partition.{Table, locate}

-- The Talos ADV and the legacy syslinux ADV: their sizes in the partition (advtalos.Size and twice
-- syslinux.AdvSize), loading, which is none where Go returns no ADV, the tags, and the bytes.
pub record AdvLib : Type 1 where
  pub Talos : Type 0
  pub Legacy : Type 0
  pub talos_size : ℕ
  pub legacy_size : ℕ
  pub load_talos : Bytes → Option Talos
  pub load_legacy : Bytes → Option Legacy
  pub read_talos : Talos → ℕ → Option Bytes
  pub read_legacy : Legacy → ℕ → Option Bytes
  pub set_talos : Talos → ℕ → Bytes → Option Talos
  pub talos_bytes : Talos → Option Bytes
  pub legacy_bytes : Legacy → Option Bytes

-- Partition
pub record Region : Type 0 where
  pub offset : ℕ
  pub size : ℕ

-- Locate: the loop is that of pkg/partition.
unfoldable pub meta_locate : Option Table → Result Region
meta_locate table = do
  p ← locate table (codes "META")
  ok (record { offset = p.offset; size = p.size })

-- io.NewSectionReader(f, p.Offset, p.Size)
abbrev pub section : Region → Bytes → Bytes
section p file = take p.size (drop p.offset file)

-- writeAt
unfoldable pub write_at : ℕ → Bytes → Bytes → Result Bytes
write_at offset bytes file =
    if leb (offset + length bytes) (length file)
    then ok (take offset file ++ (bytes ++ drop (offset + length bytes) file))
    else err short_write

module _ (lib : AdvLib) where
  -- load; the size is an int64, kept modulo 2^64, and a negative one is too small.
  unfoldable pub load : Bytes → Region → Result (lib.Talos × lib.Legacy)
  load file p = do
    guard (ltb p.size (2 ^ 63) && leb (lib.talos_size + lib.legacy_size) p.size) meta_too_small
    talos ← or_err (lib.load_talos (section p file)) bad_adv
    legacy ← or_err (lib.load_legacy (section p file)) bad_adv
    ok (talos, legacy)

  -- flush
  unfoldable pub flush_adv : Bytes → Region → lib.Talos → lib.Legacy → Result Bytes
  flush_adv file p talos legacy = do
    serialized ← or_err (lib.talos_bytes talos) not_serialized
    written ← write_at p.offset serialized file
    old ← or_err (lib.legacy_bytes legacy) not_serialized
    write_at (p.offset + p.size - length old) old written

  -- ReadTag, on loaded ADVs: the Talos ADV first.
  unfoldable pub read_either : lib.Talos → lib.Legacy → ℕ → Option Bytes
  read_either talos legacy tag = elim (lib.read_talos talos tag) [
    | some value ↦ some value
    | none ↦ lib.read_legacy legacy tag
  ]

  module _ (table_of : Bytes → Option Table) where
    -- ReadTag
    unfoldable pub read_tag : Bytes → ℕ → Result (Option Bytes)
    read_tag file tag = do
      p ← meta_locate (table_of file)
      (talos, legacy) ← load file p
      ok (read_either talos legacy tag)

    -- WriteTag: the bytes of the disk after it.
    unfoldable pub write_tag : Bytes → ℕ → Bytes → Result Bytes
    write_tag file tag value = do
      p ← meta_locate (table_of file)
      (talos, legacy) ← load file p
      changed ← or_err (lib.set_talos talos tag value) does_not_fit
      flush_adv file p changed legacy
