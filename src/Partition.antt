-- ===== src/Partition.antt =====
-- pkg/partition/partition.go: finding a partition by its label, and the name of its device node. The
-- table is what go-diskfs reads; an int64 is kept modulo 2^64.
pub mod Names
pub mod Node
pub mod Parsed
pub mod Ensured
mod Tests
use actions.Prelude.{
  ℕ, suc, ◌+◌, ◌-◌, ◌*◌, ◌%◌, ◌^◌, Bool, true, false, not, ◌&&◌, List, [], ◌∷◌, ◌++◌, Option, none,
  some, Error, Result, ok, err, ◌>>=◌, or_err, any, no_table, not_gpt, no_partition, ◌==◌,
  if◌then◌else◌,
}
use actions.Text.{Text, codes, text_eq, trim_right, contains}
use actions.Text.Numbers.{is_digit, itoa}

-- gpt.Partition
pub record GptEntry : Type 0 where
  pub index : ℕ
  pub start : ℕ
  pub last : ℕ
  pub name : Text

-- The partition table of a disk: a GPT with its logical sector size and its entries, where a nil entry
-- is none, or another kind. `block_size` is the disk's.
pub data Table : Type 0 where
  gpt : ℕ → List (Option GptEntry) → ℕ → Table
  other_table : Table

-- Partition
pub record Partition : Type 0 where
  pub index : ℕ
  pub offset : ℕ
  pub size : ℕ

abbrev pub i64 : ℕ → ℕ
i64 n = n % 2 ^ 64

-- The loop of Locate, at position i.
unfoldable pub find_label : Text → ℕ → ℕ → List (Option GptEntry) → Result Partition
find_label label sector i [] = err no_partition
find_label label sector i (none ∷ entries) = find_label label sector (i + 1) entries
find_label label sector i (some p ∷ entries) =
    let rest = find_label label sector (i + 1) entries in
    if not (text_eq p.name label)
    then rest
    else ok (record {
      index = if p.index == 0 then i + 1 else p.index;
      offset = i64 (p.start * sector);
      size = i64 (i64 (p.last + 2 ^ 64 - p.start + 1) * sector);
    })

-- Locate once the table is read; none where it cannot be.
unfoldable pub locate : Option Table → Text → Result Partition
locate none label = err no_table
locate (some other_table) label = err not_gpt
locate (some (gpt sector_size entries block_size)) label =
    find_label label (if sector_size == 0 then block_size else sector_size) 0 entries

-- What follows the last slash.
unfoldable pub last_part : Text → Text → Text
last_part seen [] = seen
last_part seen (c ∷ s) =
    let reset = last_part s s in let same = last_part seen s in if c == b'/' then reset else same

-- filepath.Base
unfoldable pub base_name : Text → Text
unfolding trim_right last_part
base_name path =
    let trimmed = trim_right (λ c. c == b'/') path in
    if text_eq path []
    then codes "."
    else if text_eq trimmed []
    then codes "/"
    else last_part trimmed trimmed

-- The last character is a digit.
unfoldable pub ends_in_digit : Text → Bool
ends_in_digit [] = false
ends_in_digit (c ∷ []) = is_digit c
ends_in_digit (c ∷ d ∷ s) = ends_in_digit (d ∷ s)

abbrev pub by_dirs : List Text
by_dirs =
    codes "/by-id/"
    ∷ codes "/by-path/"
    ∷ codes "/by-uuid/"
    ∷ codes "/by-partuuid/"
    ∷ codes "/by-partlabel/"
    ∷ codes "/by-diskseq/"
    ∷ []

-- What stands before the number of the partition.
unfoldable pub device_prefix : Text → Text
unfolding contains base_name ends_in_digit
device_prefix disk =
    if any (contains disk) by_dirs
    then disk ++ codes "-part"
    else if ends_in_digit (base_name disk)
    then disk ++ codes "p"
    else disk

-- Device
unfoldable pub device : Text → ℕ → Text
device disk index = device_prefix disk ++ itoa index
