-- ===== src/Uki/Tests.antt =====
-- A small image: runs of the operations, and the theorems on it.
use actions.Prelude.{
  ℕ, ◌+◌, ◌<◌, ◌≤◌, ◌%◌, ◌≡◌, ◌≢◌, ◌⊎◌, refl, Error, cmdline_count, true, false, List, [], ◌∷◌, map,
  Result, ok, err, arith, signed,
}
use actions.Text.{codes, text_eq}
use actions.Text.Utf8.{trim_space_bytes}
use actions.Files.{Faults}
use actions.Uki.{
  Bytes, SectionHeader, OptionalHeader, Location, parse, validate, find_cmdlines, read_at, first,
  inspect_sections, align,
}
use actions.Uki.Sample.{
  optional, sections, cmdline, headers_of, layout_of, image, uki_path, disk, no_faults,
}
use actions.Uki.Write.{
  NewData, relayout, write, new_data, resize_from, resize, last_section, place, patch, put_u32,
  u32_bytes, put_entries, put_entry, write_sections, section_bytes,
}
use actions.Uki.Align.{align_rounds_up}
use actions.Uki.ReadBack.{clean}
use actions.Uki.Inspected.{write-inspect_sections}
use actions.Uki.Rewrite.{rewrite}
use actions.Uki.Atomic.{IsAtomic, IsRewritten, rewrite-IsAtomic, rewrite_signed}

parse-image : parse (headers_of optional) image ≡ ok (layout_of optional)
unfolding parse validate text_eq
parse-image = refl

abbrev new_lines : List Bytes
new_lines = codes "quiet console=ttyS0" ∷ []

abbrev fresh : NewData
fresh = (1, codes "quiet console=ttyS0") ∷ []

-- The bytes, or none on an error; to unfold it is to unfold all that write calls.
or_empty : Result Bytes → Bytes
unfolding write new_data first relayout resize_from resize last_section place read_at patch put_u32
    u32_bytes put_entries put_entry write_sections section_bytes
or_empty (ok bytes) = bytes
or_empty (err e) = []

-- The image that write makes: 32 bytes for the longer command line.
abbrev rewritten : Bytes
rewritten = or_empty (write image (layout_of optional) new_lines)

write_image : write image (layout_of optional) new_lines ≡ ok rewritten
unfolding or_empty
write_image = refl

align_rounds_up_example : (33 ≤ align 33 16) × (align 33 16 < 33 + 16) × (align 33 16 % 16 ≡ 0)
align_rounds_up_example = align_rounds_up 33 16 (4, refl) (omega arith)

write-inspect_sections_example :
    (updated : List SectionHeader) × (locations : List Location) × (relayout 16 4096 fresh 1
        sections
      ≡ ok updated)
    × (inspect_sections rewritten updated (1 ∷ []) ≡ ok (map clean new_lines, locations))
unfolding or_empty find_cmdlines text_eq
write-inspect_sections_example =
    write-inspect_sections image rewritten (layout_of optional) new_lines fresh 1 cmdline refl refl
      refl refl refl (omega arith) (omega arith) write_image

-- The rename fails.
abbrev rename_fault : Faults
rename_fault = record { create = false; write = false; sync = false; close = false; rename = true }

rewrite-IsAtomic_example :
    IsAtomic disk uki_path
      (IsRewritten (headers_of optional) disk uki_path new_lines false)
      (rewrite (headers_of optional) rename_fault disk uki_path new_lines false)
rewrite-IsAtomic_example =
    rewrite-IsAtomic (headers_of optional) rename_fault disk uki_path new_lines false

abbrev signed_optional : OptionalHeader
signed_optional = record {
  magic = 0x20b;
  file_alignment = 16;
  section_alignment = 4096;
  security = record { address = 560; length = 8 };
}

parse_signed : parse (headers_of signed_optional) image ≡ ok (layout_of signed_optional)
unfolding parse validate text_eq
parse_signed = refl

rewrite_signed_example :
    let address : ℕ = 560 in
    let size : ℕ = 8 in
    let one : ℕ = 1 in
    ((address ≢ 0)
      × (size ≢ 0)
      × ((e : Error) × (rewrite (headers_of signed_optional) no_faults disk uki_path new_lines false
            ≡ (err e, disk))
          × ((e ≡ signed) ⊎ ((e ≡ cmdline_count) × (one ≢ 1)))))
    ⊎ (((address ≡ 0) ⊎ (size ≡ 0))
        × (rewrite (headers_of signed_optional) no_faults disk uki_path new_lines false
            ≡ rewrite (headers_of signed_optional) no_faults disk uki_path new_lines true))
unfolding text_eq
rewrite_signed_example =
    rewrite_signed (headers_of signed_optional) no_faults disk uki_path new_lines image
      (layout_of signed_optional) refl parse_signed

-- U+00A0 and U+3000 are white space, but not the bytes 0xa0 and 0x80 at the end of other characters.
trim_space_bytes_runs :
    trim_space_bytes (0xc2 ∷ 0xa0 ∷ 32 ∷ 0xc3 ∷ 0xa0 ∷ 0xe3 ∷ 0x80 ∷ 0x80 ∷ 10 ∷ [])
    ≡ 0xc3 ∷ 0xa0 ∷ []
unfolding trim_space_bytes
trim_space_bytes_runs = refl
