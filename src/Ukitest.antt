-- ===== src/Ukitest.antt =====
-- pkg/uki/ukitest/build.go: the builder of small images for the tests, up to the writing of the file.
-- The functions of debug/pe are its constants and the layout of its header structures.
pub mod Samples
pub mod Inspected
mod Tests
use Prim.Native.Nat.{bit_and}
use actions.Prelude.{
  ℕ, zero, suc, ◌+◌, ◌-◌, ◌*◌, ◌/◌, ◌%◌, ◌^◌, Bool, true, false, not, List, [], ◌∷◌, ◌++◌, Result,
  ok, err, ◌>>=◌, ◌>>◌, guard, panic, length, take, replicate, leb, ◌==◌, if◌then◌else◌,
}
use actions.Text.{Text, codes}
use actions.Uki.{Bytes, SectionHeader, u32, u64, align}

-- SectionAlignment, FileAlignment, dosHeaderSize and firstVA
abbrev pub section_alignment : ℕ
section_alignment = 0x1000

abbrev pub file_alignment : ℕ
file_alignment = 0x200

abbrev pub dos_header_size : ℕ
dos_header_size = 0x80

abbrev pub first_va : ℕ
first_va = 0x1000

-- DataFlags and CodeFlags
abbrev pub data_flags : ℕ
data_flags = 0x40000040

abbrev pub code_flags : ℕ
code_flags = 0x60000020

-- Section
pub record Section : Type 0 where
  pub name : Text
  pub contents : Bytes
  pub characteristics : ℕ

-- A little-endian integer of so many bytes.
unfoldable pub little_endian : ℕ → ℕ → Bytes
little_endian zero n = []
little_endian (suc count) n = n % 256 ∷ little_endian count (n / 256)

abbrev pub u16_field : ℕ → Bytes
u16_field = little_endian 2

abbrev pub u32_field : ℕ → Bytes
u32_field = little_endian 4

abbrev pub u64_field : ℕ → Bytes
u64_field = little_endian 8

-- The raw size of a section.
abbrev pub raw_size : Bytes → ℕ
raw_size bytes = u32 (align (length bytes) file_alignment)

-- The loop over the sections: their headers.
unfoldable pub build_headers : ℕ → ℕ → List Section → List SectionHeader
build_headers va offset [] = []
build_headers va offset (s ∷ sections) =
    record {
      name = take 8 s.name;
      virtual_size = u32 (length s.contents);
      virtual_address = u32 va;
      size = raw_size s.contents;
      offset = u32 offset;
      characteristics = s.characteristics;
    }
    ∷ build_headers (align (u64 (va + length s.contents)) section_alignment)
        (u64 (offset + raw_size s.contents)) sections

-- The same loop: where the image ends in memory, where it ends in the file, and the sizes of code and of
-- initialized data.
unfoldable pub end_va : ℕ → List Section → ℕ
end_va va [] = va
end_va va (s ∷ sections) = end_va (align (u64 (va + length s.contents)) section_alignment) sections

unfoldable pub end_offset : ℕ → List Section → ℕ
end_offset offset [] = offset
end_offset offset (s ∷ sections) = end_offset (u64 (offset + raw_size s.contents)) sections

abbrev pub is_data : Section → Bool
is_data s = not (bit_and s.characteristics 0x40 == 0)

unfoldable pub size_of_kind : Bool → ℕ → List Section → ℕ
size_of_kind of_data total [] = total
size_of_kind of_data total (s ∷ sections) =
    let added = size_of_kind of_data (u32 (total + raw_size s.contents)) sections in
    let same = size_of_kind of_data total sections in
    if is_data s then (if of_data then added else same) else (if of_data then same else added)

-- headersSize
abbrev pub headers_size : List Section → ℕ
headers_size sections =
    u32 (align (dos_header_size + 4 + 20 + 240 + 40 * length sections) file_alignment)

-- The DOS header, with e_lfanew, and the signature of PE.
abbrev pub dos_header : Bytes
dos_header = codes "MZ" ++ (replicate 58 0 ++ (u32_field dos_header_size ++ replicate 64 0))

abbrev pub pe_signature : Bytes
pe_signature = codes "PE" ++ (0 ∷ 0 ∷ [])

-- pe.FileHeader
abbrev pub file_header : ℕ → Bytes
file_header count =
    u16_field 0x8664 ++ (u16_field count ++ (replicate 12 0 ++ (u16_field 240 ++ u16_field 0x22)))

-- The certificate table that a signed image ends with.
abbrev pub signature : Bytes
signature = codes "FAKE-AUTHENTICODE-CERTIFICATE-TABLE-PADDED-TO-SIXTY-FOUR-BYTES!!"

-- The data directories: the fifth is that of the certificate table.
abbrev pub directories : Bool → ℕ → Bytes
directories signed offset =
    replicate 32 0
    ++ ((if signed then u32_field offset ++ u32_field (length signature) else replicate 8 0)
        ++ replicate 88 0)

-- pe.OptionalHeader64
abbrev pub optional_header : List Section → Bool → Bytes
optional_header sections signed =
    u16_field 0x20b
    ++ (replicate 2 0
        ++ (u32_field (size_of_kind false 0 sections)
            ++ (u32_field (size_of_kind true 0 sections)
                ++ (replicate 4 0
                    ++ (u32_field first_va
                        ++ (u32_field first_va
                            ++ (u64_field 0x140000000
                                ++ (u32_field section_alignment
                                    ++ (u32_field file_alignment
                                        ++ (replicate 8 0
                                            ++ (u16_field 6
                                                ++ (replicate 6 0
                                                    ++ (u32_field (end_va first_va sections)
                                                        ++ (u32_field (headers_size sections)
                                                            ++ (replicate 4 0
                                                            ++ (u16_field 10
                                                            ++ (replicate 2 0
                                                            ++ (u64_field 0x100000
                                                            ++ (u64_field 0x1000
                                                            ++ (u64_field 0x100000
                                                            ++ (u64_field 0x1000
                                                            ++ (replicate 4 0
                                                            ++ (u32_field 16
                                                            ++ directories signed (
                                                            end_offset (headers_size sections)
                                                            sections))))))))))))))))))))))))

-- pe.SectionHeader32
unfoldable pub section_header_bytes : SectionHeader → Bytes
unfolding little_endian
section_header_bytes h =
    take 8 (h.name ++ replicate 8 0)
    ++ (u32_field h.virtual_size
        ++ (u32_field h.virtual_address
            ++ (u32_field h.size
                ++ (u32_field h.offset ++ (replicate 12 0 ++ u32_field h.characteristics)))))

unfoldable pub header_table : List SectionHeader → Bytes
unfolding section_header_bytes
header_table [] = []
header_table (h ∷ headers) = section_header_bytes h ++ header_table headers

-- The contents of the sections. Padding of a negative length panics.
unfoldable pub section_contents : List Section → Result Bytes
section_contents [] = ok []
section_contents (s ∷ sections) = do
  guard (leb (length s.contents) (raw_size s.contents)) panic
  rest ← section_contents sections
  ok (s.contents ++ (replicate (raw_size s.contents - length s.contents) 0 ++ rest))

-- All headers.
unfoldable pub headers_bytes : List Section → Bool → Bytes
unfolding header_table build_headers little_endian size_of_kind end_va end_offset
headers_bytes sections signed =
    dos_header
    ++ (pe_signature
        ++ (file_header (length sections)
            ++ (optional_header sections signed
                ++ header_table (build_headers first_va (headers_size sections) sections))))

-- Write, up to os.WriteFile.
unfoldable pub build : List Section → Bool → Result Bytes
unfolding headers_bytes section_contents
build sections signed = do
  let head = headers_bytes sections signed
  guard (leb (length head) (headers_size sections)) panic
  body ← section_contents sections
  ok (
      head
      ++ (replicate (headers_size sections - length head) 0
          ++ (body ++ (if signed then signature else []))))
