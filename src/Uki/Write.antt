-- ===== src/Uki/Write.antt =====
-- pkg/uki/uki.go: write, which computes the new section headers, patches the headers in place and
-- lays out every section from the first .cmdline on. What it writes is the new file's bytes.
use Prim.Native.Nat.{bit_and}
use actions.Prelude.{
  ℕ, ◌+◌, ◌-◌, ◌*◌, ◌/◌, ◌%◌, ◌^◌, not, ◌&&◌, ◌||◌, List, [], ◌∷◌, ◌++◌, Option, none, some, Result,
  ok, err, ◌>>=◌, ◌>>◌, guard, or_err, panic, bad_alignment, length, take, drop, get_elem?,
  replicate, leb, ◌==◌, if◌then◌else◌,
}
use actions.Uki.{Bytes, SectionHeader, Layout, u32, u64, align, first, read_at}

-- newData: the new contents of a section, by its index.
abbrev pub NewData : Type 0
NewData = List (ℕ × Bytes)

-- newData[i]
unfoldable pub find_data : ℕ → NewData → Option Bytes
find_data i [] = none
find_data i ((j, bytes) ∷ rest) = if i == j then some bytes else find_data i rest

-- `data := []byte(cmdlines[n]); newData[i] = data`: it panics if a command line is missing.
unfoldable pub new_data : List ℕ → List Bytes → Result NewData
new_data [] cmdlines = ok []
new_data (i ∷ is) [] = err panic
new_data (i ∷ is) (bytes ∷ cmdlines) = do rest ← new_data is cmdlines; ok ((i, bytes) ∷ rest)

-- The sizes of a section with new contents.
unfoldable pub resize : ℕ → NewData → ℕ → SectionHeader → SectionHeader
unfolding find_data align
resize fa fresh i s = elim (find_data i fresh) [
  | none ↦ s
  | some bytes ↦ record s {
    virtual_size = u32 (length bytes);
    size = u32 (align (length bytes) fa);
  }
]

unfoldable pub resize_from : ℕ → NewData → ℕ → List SectionHeader → List SectionHeader
resize_from fa fresh i [] = []
resize_from fa fresh i (s ∷ ss) = resize fa fresh i s ∷ resize_from fa fresh (i + 1) ss

-- The layout loop, from the first .cmdline section on; `va` and `offset` are in uint64.
unfoldable pub place : ℕ → ℕ → ℕ → List SectionHeader → List SectionHeader
unfolding align
place sa va offset [] = []
place sa va offset (s ∷ ss) =
    record s { virtual_address = u32 va; offset = u32 offset }
    ∷ place sa (align (u64 (va + s.virtual_size)) sa) (u64 (offset + s.size)) ss

-- The updated section headers.
unfoldable pub relayout : ℕ → ℕ → NewData → ℕ → List SectionHeader → Result (List SectionHeader)
relayout fa sa fresh n sections = do
  let resized = resize_from fa fresh 0 sections
  base ← or_err (get_elem? resized n) panic
  ok (take n resized ++ place sa base.virtual_address base.offset (drop n resized))

-- IMAGE_SCN_CNT_INITIALIZED_DATA
abbrev pub initialized_data : ℕ
initialized_data = 0x40

-- sizeOfCode and sizeOfData, in uint32
unfoldable pub code_size : List SectionHeader → ℕ
code_size [] = 0
code_size (s ∷ ss) =
    u32 ((if bit_and s.characteristics initialized_data == 0 then s.size else 0) + code_size ss)

unfoldable pub data_size : List SectionHeader → ℕ
data_size [] = 0
data_size (s ∷ ss) =
    u32 ((if bit_and s.characteristics initialized_data == 0 then 0 else s.size) + data_size ss)

-- updated[len(updated)-1]
unfoldable pub last_section : List SectionHeader → Result SectionHeader
last_section [] = err panic
last_section (s ∷ []) = ok s
last_section (s ∷ t ∷ ss) = last_section (t ∷ ss)

-- binary.LittleEndian.PutUint32
unfoldable pub u32_bytes : ℕ → Bytes
u32_bytes v = v % 256 ∷ v / 2 ^ 8 % 256 ∷ v / 2 ^ 16 % 256 ∷ v / 2 ^ 24 % 256 ∷ []

-- putU32: the slice `prefix[off:off+4]` panics out of range; `off+4` is in uint32.
unfoldable pub put_u32 : Bytes → ℕ → ℕ → Result Bytes
put_u32 prefix off v =
    if leb off (u32 (off + 4)) && leb (u32 (off + 4)) (length prefix)
    then ok (take off prefix ++ (u32_bytes v ++ drop (off + 4) prefix))
    else err panic

-- The four patches of one entry of the section table.
unfoldable pub put_entry : ℕ → Bytes → ℕ → SectionHeader → Result Bytes
put_entry table prefix i s = do
  let entry = u32 (table + i * 40)
  p ← put_u32 prefix (u32 (entry + 8)) s.virtual_size
  q ← put_u32 p (u32 (entry + 12)) s.virtual_address
  r ← put_u32 q (u32 (entry + 16)) s.size
  put_u32 r (u32 (entry + 20)) s.offset

unfoldable pub put_entries : ℕ → Bytes → ℕ → List SectionHeader → Result Bytes
put_entries table prefix i [] = ok prefix
put_entries table prefix i (s ∷ ss) = do
  p ← put_entry table prefix i s
  put_entries table p (i + 1) ss

-- The patched headers and the sections before the first .cmdline.
unfoldable pub patch : Layout → ℕ → ℕ → List SectionHeader → Bytes → Result Bytes
patch l n size_of_image updated prefix = do
  let o = l.optional_off
  p ← put_u32 prefix (u32 (o + 4)) (code_size updated)
  q ← put_u32 p (u32 (o + 8)) (data_size updated)
  r ← put_u32 q (u32 (o + 56)) (u32 size_of_image)
  s ← put_u32 r (u32 (o + 64)) 0
  let dir = u32 (o + 112 + 8 * 4)
  t ← put_u32 s dir 0
  u ← put_u32 t (u32 (dir + 4)) 0
  put_entries l.section_table u n (drop n updated)

-- What is written for one section: the new contents and zeros up to its size, or a copy of what the
-- input holds of the old section. A negative count of zeros panics.
unfoldable pub section_bytes : Bytes → NewData → ℕ → SectionHeader → SectionHeader → Result Bytes
unfolding find_data
section_bytes input fresh i orig updated = elim (find_data i fresh) [
  | none ↦ ok (take orig.size (drop orig.offset input))
  | some bytes ↦
      if leb (length bytes) updated.size
      then ok (bytes ++ replicate (updated.size - length bytes) 0)
      else err panic
]

-- The last loop of write.
unfoldable pub write_sections :
    Bytes → NewData → ℕ → List SectionHeader → List SectionHeader → Result Bytes
write_sections input fresh i origs [] = ok []
write_sections input fresh i [] (u ∷ us) = err panic
write_sections input fresh i (o ∷ os) (u ∷ us) = do
  chunk ← section_bytes input fresh i o u
  rest ← write_sections input fresh (i + 1) os us
  ok (chunk ++ rest)

-- write: the bytes of the new file.
unfoldable pub write : Bytes → Layout → List Bytes → Result Bytes
write input l cmdlines = do
  let fa = l.optional.file_alignment
  let sa = l.optional.section_alignment
  guard (not (fa == 0 || sa == 0)) bad_alignment
  fresh ← new_data l.cmdlines cmdlines
  n ← first l
  updated ← relayout fa sa fresh n l.sections
  last ← last_section updated
  let size_of_image = align (u64 (last.virtual_address + last.virtual_size)) sa
  base ← or_err (get_elem? l.sections n) panic
  prefix ← read_at input 0 base.offset
  headers ← patch l n size_of_image updated prefix
  body ← write_sections input fresh n (drop n l.sections) (drop n updated)
  ok (headers ++ body)
