-- ===== src/Naming/Slots.antt =====
-- pkg/talosnet/naming.go: hotplugSlot without its map.
use actions.Prelude.{
  ℕ, ◌≡◌, refl, ap, ◌∙◌, Bool, not, ◌&&◌, List, [], ◌∷◌, Option, none, some, Bool-cases,
  Option-cases, inl, inr, ◌==◌, if◌then◌else◌,
}
use actions.Text.{Text, codes, text_eq, trim_space}
use actions.Text.Numbers.{atoi}
use actions.Text.Paths.{FilePath, join_path}
use actions.Naming.Pci.{Sysfs, is_pci}
use actions.Naming.{
  Slots, slot_at, assign, collect_slots, trim_ext, slot_of, slots_dir, slot_among, hotplug_slot,
}

-- The first of two that is there.
abbrev pub or_else {ℓ} : {A : Type ℓ} → Option A → Option A → Option A
or_else (some a) other = some a
or_else none other = other

-- What an entry lists for an address: its number, where the number is not negative and its address file
-- holds the address.
abbrev pub listed_by : Option (Bool × ℕ) → Option Text → Text → Option ℕ
listed_by (some (negative, n)) (some raw) address =
    if not (negative && not (n == 0)) && text_eq (trim_space raw) address then some n else none
listed_by _ _ address = none

abbrev pub address_file : Sysfs → FilePath → Text → Option Text
address_file sys dir entry = sys.read_file (join_path (join_path dir entry) (codes "address"))

-- The number of the last entry that lists the address.
abbrev pub last_listed : Sysfs → FilePath → List Text → Text → Option ℕ
last_listed sys dir [] address = none
last_listed sys dir (entry ∷ entries) address =
    or_else (last_listed sys dir entries address)
      (listed_by (atoi entry) (address_file sys dir entry) address)

-- The innermost elements, as long as they are PCI addresses: the device and its PCI ancestors.
abbrev pub pci_chain : List Text → List Text
pci_chain [] = []
pci_chain (x ∷ up) = if is_pci x then x ∷ pci_chain up else []

-- The first of them with a value.
abbrev pub first_of : (Text → Option ℕ) → List Text → Option ℕ
first_of f [] = none
first_of f (x ∷ xs) = or_else (f x) (first_of f xs)

assoc_or_else {ℓ} :
    {A : Type ℓ} (a b c : Option A) → or_else a (or_else b c) ≡ or_else (or_else a b) c
assoc_or_else none b c = refl
assoc_or_else (some x) b c = refl

slot_at-assign :
    (number : Option (Bool × ℕ)) (raw : Option Text) (slots : Slots) (address : Text)
    → slot_at (assign number raw slots) address
      ≡ or_else (listed_by number raw address) (slot_at slots address)
unfolding assign slot_at
slot_at-assign none raw slots address = refl
slot_at-assign (some (negative, n)) none slots address = refl
slot_at-assign (some (negative, n)) (some raw) slots address =
    elim (Bool-cases (negative && not (n == 0))) [
      | inl e ↦ rw e refl
      | inr e ↦ rw e (elim (Bool-cases (text_eq (trim_space raw) address)) [
        | inl t ↦ rw t refl
        | inr t ↦ rw t refl
      ])
    ]

slot_at-collect :
    (sys : Sysfs) (dir : FilePath) (slots : Slots) (entries : List Text) (address : Text)
    → slot_at (collect_slots sys dir slots entries) address
      ≡ or_else (last_listed sys dir entries address) (slot_at slots address)
unfolding collect_slots
slot_at-collect sys dir slots [] address = refl
slot_at-collect sys dir slots (entry ∷ entries) address =
    slot_at-collect sys dir (assign (atoi entry) (address_file sys dir entry) slots) entries address
    ∙ ap (or_else (last_listed sys dir entries address))
        (slot_at-assign (atoi entry) (address_file sys dir entry) slots address)
    ∙ assoc_or_else (last_listed sys dir entries address)
        (listed_by (atoi entry) (address_file sys dir entry) address) (slot_at slots address)

or_else-none {ℓ} : {A : Type ℓ} (a : Option A) → or_else a none ≡ a
or_else-none none = refl
or_else-none (some x) = refl

slot_of-first_of :
    (slots : Slots) (f : Text → Option ℕ) (parts : List Text)
    → ((a : Text) → slot_at slots a ≡ f a)
    → slot_of slots parts ≡ first_of (λ x. f (trim_ext x)) (pci_chain parts)
unfolding slot_of
slot_of-first_of slots f [] same = refl
slot_of-first_of slots f (x ∷ up) same = elim (Bool-cases (is_pci x)) [
  | inr e ↦ rw e refl
  | inl e ↦
      rw (e, same (trim_ext x))
        (elim (Option-cases (f (trim_ext x))) [
          | inl n ↦ rw n (slot_of-first_of slots f up same)
          | inr (s, n) ↦ rw n refl
        ])
]

-- Where the list of slots can be read, hotplugSlot answers as if there were no map: for the device and
-- then each of its PCI ancestors, the number of the last entry that lists its address, and the first
-- such number is the answer.
pub hotplug_slot_lem :
    (sys : Sysfs) (root dev : FilePath) (entries : List Text)
    → sys.read_dir (slots_dir root) ≡ some entries
    → hotplug_slot sys root dev
      ≡ first_of (λ x. last_listed sys (slots_dir root) entries (trim_ext x)) (pci_chain dev.parts)
unfolding hotplug_slot slot_at
hotplug_slot_lem sys root dev entries h =
    rw (h, slot_among)
      (slot_of-first_of (collect_slots sys (slots_dir root) [] entries)
        (last_listed sys (slots_dir root) entries) dev.parts
        (λ a.
          slot_at-collect sys (slots_dir root) [] entries a
          ∙ or_else-none (last_listed sys (slots_dir root) entries a)))
