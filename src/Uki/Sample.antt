-- ===== src/Uki/Sample.antt =====
-- A small image and a disk that holds it, for the tests.
use actions.Prelude.{false, List, [], ◌∷◌, ◌++◌, Option, none, some, replicate, if◌then◌else◌}
use actions.Text.{Text, codes, text_eq}
use actions.Files.{Files, Faults}
use actions.Uki.{Bytes, SectionHeader, OptionalHeader, PeFile, Layout}

abbrev pub osrel : SectionHeader
osrel = record {
  name = codes ".osrel";
  virtual_size = 4;
  virtual_address = 0x1000;
  size = 16;
  offset = 496;
  characteristics = 0x40000040;
}

abbrev pub cmdline : SectionHeader
cmdline = record {
  name = codes ".cmdline";
  virtual_size = 5;
  virtual_address = 0x2000;
  size = 16;
  offset = 512;
  characteristics = 0x40000040;
}

abbrev pub linux : SectionHeader
linux = record {
  name = codes ".linux";
  virtual_size = 8;
  virtual_address = 0x3000;
  size = 16;
  offset = 528;
  characteristics = 0x40000040;
}

abbrev pub sections : List SectionHeader
sections = osrel ∷ cmdline ∷ linux ∷ []

abbrev pub optional : OptionalHeader
optional = record {
  magic = 0x20b;
  file_alignment = 16;
  section_alignment = 4096;
  security = record { address = 0; length = 0 };
}

-- The headers that pe.NewFile reads from the image.
abbrev pub headers_of : OptionalHeader → Bytes → Option PeFile
headers_of o file =
    some (record { optional = some o; size_of_optional_header = 240; sections = sections })

abbrev pub layout_of : OptionalHeader → Layout
layout_of o = record {
  optional = o;
  sections = sections;
  optional_off = 88;
  section_table = 328;
  cmdlines = 1 ∷ [];
}

abbrev pub image : Bytes
image =
    replicate 60 0
    ++ (64 ∷ 0 ∷ 0 ∷ 0 ∷ [])
    ++ replicate 448 0
    ++ codes "quiet"
    ++ replicate 11 0
    ++ codes "vmlinuz."
    ++ replicate 8 0

abbrev pub uki_path : Text
uki_path = codes "Talos-A.efi"

abbrev pub disk : Files
disk q = if text_eq q uki_path then some image else none

abbrev pub no_faults : Faults
no_faults = record { create = false; write = false; sync = false; close = false; rename = false }
