-- ===== src/Naming/Pci.antt =====
-- pkg/talosnet/naming.go: PCI addresses in device paths, and the names that are made of them.
use actions.Prelude.{
  ℕ, ◌+◌, ◌-◌, ◌*◌, ◌/◌, ◌%◌, Bool, true, false, not, ◌&&◌, ◌||◌, List, [], ◌∷◌, ◌++◌, Option, none,
  some, Result, ok, or_err, panic, any, leb, ltb, ◌==◌, ◌>>=◌, length, get_elem?, if◌then◌else◌,
}
use actions.Text.{Text, codes}
use actions.Text.Numbers.{is_digit, itoa}
use actions.Text.Paths.{FilePath, path_base, join_path}

-- [0-9a-f]
abbrev pub is_hex_digit : ℕ → Bool
is_hex_digit c = is_digit c || (leb 97 c && leb c 102)

abbrev pub all_hex : Text → Bool
all_hex s = not (any (λ c. not (is_hex_digit c)) s)

-- The groups of a match.
pub record PciAddress : Type 0 where
  pub domain : Text
  pub bus : Text
  pub slot : Text
  pub function : Text

-- pciAddress.FindStringSubmatch
unfoldable pub match_pci : Text → Option PciAddress
match_pci (d1 ∷ d2 ∷ d3 ∷ d4 ∷ colon ∷ b1 ∷ b2 ∷ colon' ∷ s1 ∷ s2 ∷ dot ∷ f ∷ []) =
    if all_hex (d1 ∷ d2 ∷ d3 ∷ d4 ∷ b1 ∷ b2 ∷ s1 ∷ s2 ∷ [])
      && (colon == b':' && colon' == b':' && dot == b'.')
      && (leb 48 f && leb f 55)
    then some (record {
      domain = d1 ∷ d2 ∷ d3 ∷ d4 ∷ [];
      bus = b1 ∷ b2 ∷ [];
      slot = s1 ∷ s2 ∷ [];
      function = f ∷ [];
    })
    else none
match_pci _ = none

-- pciAddress.MatchString
unfoldable pub is_pci : Text → Bool
unfolding match_pci
is_pci s = elim (match_pci s) [ none ↦ false | some m ↦ true ]

-- strconv.ParseUint(s, 16, bits) of at most bits / 4 digits that are hexadecimal.
unfoldable pub hex_value : ℕ → Text → ℕ
hex_value n [] = n
hex_value n (c ∷ s) = hex_value (n * 16 + (if is_digit c then c - 48 else c - 87)) s

-- The files of sysfs: os.ReadDir gives names in order, os.ReadFile bytes, and filepath.EvalSymlinks a
-- clean path; none is an error.
pub record Sysfs : Type 0 where
  pub read_dir : FilePath → Option (List Text)
  pub read_file : FilePath → Option (List ℕ)
  pub eval_symlinks : FilePath → Option FilePath

-- Bit 7 of the byte at offset 14.
unfoldable pub has_multifunction_bit : Option (List ℕ) → Bool
has_multifunction_bit none = false
has_multifunction_bit (some config) =
    if ltb (length config) 15 then false else bit_of (get_elem? config 14)
  where
    bit_of : Option ℕ → Bool
    bit_of none = false
    bit_of (some b) = b / 128 % 2 == 1

-- isMultifunction
unfoldable pub is_multifunction : Sysfs → FilePath → Bool
is_multifunction sys dev = has_multifunction_bit (sys.read_file (join_path dev (codes "config")))

-- The suffix of this function number.
abbrev suffix_of : ℕ → Bool → Text
suffix_of function multi = if function == 0 && not multi then [] else codes "f" ++ itoa function

-- functionSuffix. An index into the groups of no match panics.
unfoldable pub function_suffix : Sysfs → FilePath → Result Text
unfolding path_base
function_suffix sys dev = do
  m ← or_err (match_pci (path_base dev)) panic
  ok (suffix_of (hex_value 0 m.function) (is_multifunction sys dev))

-- What pciPathName writes.
abbrev path_name_of : PciAddress → Text → Text
path_name_of m suffix =
    codes "en"
    ++ ((if hex_value 0 m.domain == 0 then [] else codes "P" ++ itoa (hex_value 0 m.domain))
        ++ (codes "p"
            ++ (itoa (hex_value 0 m.bus) ++ (codes "s" ++ (itoa (hex_value 0 m.slot) ++ suffix)))))

-- pciPathName
unfoldable pub pci_path_name : Sysfs → FilePath → Result Text
unfolding path_base function_suffix
pci_path_name sys dev = do
  m ← or_err (match_pci (path_base dev)) panic
  suffix ← function_suffix sys dev
  ok (path_name_of m suffix)
