-- ===== src/Uki.antt =====
-- pkg/uki/uki.go: the layout of a unified kernel image and its parsing. `debug/pe` is the parameter
-- `pe_file`, the headers that pe.NewFile reads; the file itself is its bytes. Integers are `uint32`
-- and `uint64` with their wrap-around.
pub mod Write
pub mod Align
pub mod Content
pub mod ReadBack
pub mod Indexes
pub mod Rewritten
pub mod Inspected
pub mod Rewrite
pub mod Atomic
pub mod Sample
mod Tests
use Prim.Native.Nat.{bit_and}
use actions.Prelude.{
  ℕ, zero, suc, ◌+◌, ◌-◌, ◌*◌, ◌%◌, ◌^◌, Bool, true, false, not, ◌&&◌, ◌||◌, List, [], ◌∷◌, ◌++◌,
  Option, none, some, Error, Result, ok, err, ◌>>=◌, ◌>>◌, guard, panic, bad_pe, not_pe32_plus,
  short_read, no_cmdline_section, table_overlap, not_before, not_after, address_overlap,
  not_plain_data, length, take, drop, get_elem?, ltb, leb, ◌==◌, if◌then◌else◌, or_err,
}
use actions.Text.{Text, codes, text_eq, trim_right}
use actions.Text.Utf8.{trim_space_bytes}

abbrev pub Bytes : Type 0
Bytes = List ℕ

abbrev pub u32 : ℕ → ℕ
u32 n = n % 2 ^ 32

abbrev pub u64 : ℕ → ℕ
u64 n = n % 2 ^ 64

-- pe.SectionHeader, the fields that the package uses.
pub record SectionHeader : Type 0 where
  pub name : Text
  pub virtual_size : ℕ
  pub virtual_address : ℕ
  pub size : ℕ
  pub offset : ℕ
  pub characteristics : ℕ

-- pe.DataDirectory
pub record DataDirectory : Type 0 where
  pub address : ℕ
  pub length : ℕ

-- pe.OptionalHeader64, the fields that the package uses; `security` is
-- DataDirectory[IMAGE_DIRECTORY_ENTRY_SECURITY].
pub record OptionalHeader : Type 0 where
  pub magic : ℕ
  pub file_alignment : ℕ
  pub section_alignment : ℕ
  pub security : DataDirectory

-- pe.File; `optional` is none where the header is not a *pe.OptionalHeader64.
pub record PeFile : Type 0 where
  pub optional : Option OptionalHeader
  pub size_of_optional_header : ℕ
  pub sections : List SectionHeader

-- layout
pub record Layout : Type 0 where
  pub optional : OptionalHeader
  pub sections : List SectionHeader
  pub optional_off : ℕ
  pub section_table : ℕ
  pub cmdlines : List ℕ

abbrev pub section_name : Text
section_name = codes ".cmdline"

abbrev pub optional_header_magic : ℕ
optional_header_magic = 0x20b

-- IMAGE_SCN_CNT_CODE | IMAGE_SCN_MEM_EXECUTE | IMAGE_SCN_MEM_WRITE
abbrev pub unsafe_characteristic : ℕ
unsafe_characteristic = 0xa0000020

-- (l *layout) signed
unfoldable pub is_signed : Layout → Bool
is_signed l = not (l.optional.security.address == 0) && not (l.optional.security.length == 0)

-- (l *layout) first: it panics if there is no .cmdline section, which parse refuses.
unfoldable pub first : Layout → Result ℕ
first l = or_err (get_elem? l.cmdlines 0) panic

-- (v + a - 1) &^ (a - 1) in uint64
unfoldable pub align : ℕ → ℕ → ℕ
align v a =
    let mask = u64 (a + 2 ^ 64 - 1) in let x = u64 (v + a + 2 ^ 64 - 1) in x - bit_and x mask

-- binary.LittleEndian.Uint32
unfoldable pub get_u32 : Bytes → Result ℕ
get_u32 (a ∷ b ∷ c ∷ d ∷ _) = ok (a + b * 2 ^ 8 + c * 2 ^ 16 + d * 2 ^ 24)
get_u32 _ = err panic

-- ReadAt: all of the bytes, or an error.
unfoldable pub read_at : Bytes → ℕ → ℕ → Result Bytes
read_at file off n =
    if n == 0 || leb (off + n) (length file) then ok (take n (drop off file)) else err short_read

-- The loop of parse that collects the indexes of the .cmdline sections.
unfoldable pub find_cmdlines : ℕ → List SectionHeader → List ℕ
find_cmdlines i [] = []
find_cmdlines i (s ∷ ss) =
    let rest = find_cmdlines (i + 1) ss in if text_eq s.name section_name then i ∷ rest else rest

-- The default case of validate's switch.
unfoldable pub check_plain : SectionHeader → Result (Unit {0})
check_plain s =
    guard
      (bit_and s.characteristics unsafe_characteristic == 0
        && not (text_eq s.name (codes ".reloc")))
      not_plain_data

-- The case of a section before the first .cmdline.
unfoldable pub check_before : SectionHeader → SectionHeader → Result (Unit {0})
check_before base s = guard (leb (s.offset + s.size) base.offset) not_before

-- The case of a section after the first .cmdline; the sums are in uint32. It falls through.
unfoldable pub check_after : SectionHeader → SectionHeader → Result (Unit {0})
unfolding check_plain
check_after prev s = do
  guard (leb (u32 (prev.offset + prev.size)) s.offset) not_after
  guard (leb (u32 (prev.virtual_address + prev.virtual_size)) s.virtual_address) address_overlap
  check_plain s

-- The loop of validate behind the first .cmdline section.
unfoldable pub check_tail : SectionHeader → List SectionHeader → Result (Unit {0})
unfolding check_after
check_tail prev [] = ok tt
check_tail prev (s ∷ ss) = do check_after prev s; check_tail s ss

-- The loop of validate: `n` sections are left before the first .cmdline section, `base`.
unfoldable pub check_sections : SectionHeader → ℕ → List SectionHeader → Result (Unit {0})
unfolding check_before check_plain check_tail
check_sections base n [] = ok tt
check_sections base zero (s ∷ ss) = do check_plain s; check_tail s ss
check_sections base (suc n) (s ∷ ss) = do check_before base s; check_sections base n ss

-- (l *layout) validate
unfoldable pub validate : Layout → Result (Unit {0})
unfolding first check_sections
validate l = do
  i ← first l
  base ← or_err (get_elem? l.sections i) panic
  guard (leb (l.section_table + 40 * length l.sections) base.offset) table_overlap
  check_sections base i l.sections

module _ (pe_file : Bytes → Option PeFile) where
  unfoldable pub parse : Bytes → Result Layout
  unfolding read_at get_u32 find_cmdlines validate
  parse file = do
    pe ← or_err (pe_file file) bad_pe
    optional ← or_err pe.optional not_pe32_plus
    guard (optional.magic == optional_header_magic) not_pe32_plus
    dos ← read_at file 0 0x40
    pe_offset ← get_u32 (drop 0x3c dos)
    let optional_off = u32 (pe_offset + 4 + 20)
    let l : Layout = record {
      optional = optional;
      sections = pe.sections;
      optional_off = optional_off;
      section_table = u32 (optional_off + pe.size_of_optional_header);
      cmdlines = find_cmdlines 0 pe.sections;
    }
    guard (not (length l.cmdlines == 0)) no_cmdline_section
    validate l
    ok l

-- readCmdline
unfoldable pub read_cmdline : Bytes → SectionHeader → Result Text
read_cmdline file s = do
  let n = if ltb s.size s.virtual_size then s.size else s.virtual_size
  buf ← read_at file s.offset n
  ok (trim_space_bytes (trim_right (λ c. c == 0) buf))

-- Location and Info
pub record Location : Type 0 where
  pub section : ℕ
  pub offset : ℕ
  pub size : ℕ

pub record Info : Type 0 where
  pub cmdlines : List Text
  pub locations : List Location
  pub signed : Bool

-- The loop of Inspect over the .cmdline sections.
unfoldable pub inspect_sections :
    Bytes → List SectionHeader → List ℕ → Result (List Text × List Location)
unfolding read_cmdline
inspect_sections file sections [] = ok ([], [])
inspect_sections file sections (i ∷ is) = do
  s ← or_err (get_elem? sections i) panic
  cmdline ← read_cmdline file s
  rest ← inspect_sections file sections is
  ok (cmdline ∷ rest.0, (record { section = i; offset = s.offset; size = s.virtual_size }) ∷ rest.1)

module _ (pe_file : Bytes → Option PeFile) where
  -- Inspect, on the contents of the file
  unfoldable pub inspect : Bytes → Result Info
  unfolding parse is_signed inspect_sections read_at trim_right trim_space_bytes
  inspect file = do
    l ← parse pe_file file
    found ← inspect_sections file l.sections l.cmdlines
    ok (record { cmdlines = found.0; locations = found.1; signed = is_signed l })
