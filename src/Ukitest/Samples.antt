-- ===== src/Ukitest/Samples.antt =====
-- pkg/uki/ukitest/build.go: the contents and the lists of sections that the tests build images of.
use actions.Prelude.{ℕ, zero, suc, ◌+◌, ◌*◌, ◌/◌, ◌%◌, List, [], ◌∷◌, ◌++◌}
use actions.Text.{Text, codes}
use actions.Uki.{Bytes}
use actions.Ukitest.{Section, data_flags, code_flags}

-- Pattern: the bytes from position i on.
unfoldable pub pattern_from : ℕ → ℕ → ℕ → Bytes
pattern_from seed zero i = []
pattern_from seed (suc n) i = (seed + i * 7 + i / 251) % 256 ∷ pattern_from seed n (i + 1)

unfoldable pub pattern_bytes : ℕ → ℕ → Bytes
unfolding pattern_from
pattern_bytes seed n = pattern_from seed n 0

-- ResetSuffix
abbrev pub reset_suffix : Text
reset_suffix = codes " talos.experimental.wipe=system:EPHEMERAL,STATE"

abbrev pub data_section : Text → Bytes → Section
data_section name bytes = record { name = name; contents = bytes; characteristics = data_flags }

-- SingleCmdline
unfoldable pub single_cmdline : Text → List Section
unfolding pattern_bytes
single_cmdline cmdline =
    record { name = codes ".text"; contents = pattern_bytes 1 300; characteristics = code_flags }
    ∷ data_section (codes ".rodata") (pattern_bytes 2 100)
    ∷ record {
      name = codes ".reloc";
      contents = pattern_bytes 3 20;
      characteristics = data_flags + 0x02000000;
    }
    ∷ data_section (codes ".osrel") (codes "NAME=Talos\nID=talos\n")
    ∷ data_section (codes ".cmdline") cmdline
    ∷ data_section (codes ".uname") (codes "6.12.0-talos")
    ∷ data_section (codes ".linux") (pattern_bytes 4 5000)
    ∷ data_section (codes ".initrd") (pattern_bytes 5 9000)
    ∷ []

-- TalosLike
unfoldable pub talos_like : Text → List Section
unfolding single_cmdline
talos_like cmdline =
    single_cmdline cmdline
    ++ (data_section (codes ".profile") (codes "ID=boot\n")
        ∷ data_section (codes ".profile") (codes "ID=reset\nTITLE=Reset Talos installation\n")
        ∷ data_section (codes ".cmdline") (cmdline ++ reset_suffix)
        ∷ [])
