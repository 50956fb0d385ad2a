-- ===== src/Uki/Content.antt =====
-- pkg/uki/uki.go: where the sections of a rewritten image stand.
use actions.Prelude.{
  ℕ, zero, suc, ◌+◌, ◌-◌, ◌^◌, ◌≤◌, ◌<◌, ◌≡◌, refl, sym, ap, subst, ◌∙◌, List, [], ◌∷◌, ◌++◌,
  append_assoc, none, some, ok, err, panic, >>=-ok, arith, length, length-append, length-replicate,
  take, drop, get_elem?, drop-append_of, length-take_le, length-drop, replicate, leb, if◌then◌else◌,
  Option-cases, inl, inr,
}
use mathlib.Core.Path.{subst₂}
use mathlib.Core.Option.{some-injective}
use native.Mathlib.Nat.{add-zero}
use actions.Uki.{Bytes, SectionHeader, u32, u64, align}
use actions.Uki.Write.{
  NewData, find_data, resize, resize_from, place, section_bytes, write_sections,
}

-- The file stays below 4 GiB: no offset wraps.
abbrev pub FitsFile : ℕ → List SectionHeader → Type 0
FitsFile offset [] = Unit
FitsFile offset (s ∷ ss) = (offset + s.size < 2 ^ 32) × FitsFile (offset + s.size) ss

-- The old sections lie in the input.
abbrev pub Inside : Bytes → List SectionHeader → Type 0
Inside input [] = Unit
Inside input (s ∷ ss) = (s.offset + s.size ≤ length input) × Inside input ss

module _ (fresh : NewData) (i : ℕ) where
  section_copy :
      (input : Bytes) (s u : SectionHeader)
      → find_data i fresh ≡ none
      → section_bytes input fresh i s u ≡ ok (take s.size (drop s.offset input))
  unfolding section_bytes
  section_copy input s u e = rw (e, section_bytes)

  section_new :
      (input : Bytes) (s u : SectionHeader) (bytes : Bytes)
      → find_data i fresh ≡ some bytes
      → section_bytes input fresh i s u ≡ (
          if leb (length bytes) u.size
          then ok (bytes ++ replicate (u.size - length bytes) 0)
          else err panic)
  unfolding section_bytes
  section_new input s u bytes e = rw (e, section_bytes)

  pub resize_old : (fa : ℕ) (s : SectionHeader) → find_data i fresh ≡ none → resize fa fresh i s ≡ s
  unfolding resize
  resize_old fa s e = rw (e, resize)

  pub resize_new :
      (fa : ℕ) (s : SectionHeader) (bytes : Bytes)
      → find_data i fresh ≡ some bytes
      → resize fa fresh i s
        ≡ record s { virtual_size = u32 (length bytes); size = u32 (align (length bytes) fa) }
  unfolding resize
  resize_new fa s bytes e = rw (e, resize)

  -- New contents are followed by zeros up to the size of the section.
  pub section_new_ok :
      (input : Bytes) (s u : SectionHeader) (bytes chunk : Bytes)
      → find_data i fresh ≡ some bytes
      → section_bytes input fresh i s u ≡ ok chunk
      → (length bytes ≤ u.size) × (chunk ≡ bytes ++ replicate (u.size - length bytes) 0)
  section_new_ok input s u bytes chunk e h =
      let ok_of : (if leb (length bytes) u.size
            then ok (bytes ++ replicate (u.size - length bytes) 0)
            else err panic)
          ≡ ok chunk =
        sym (section_new input s u bytes e) ∙ h in
      (ground (arith, ok_of), ground (arith, ok_of))

  -- What is written for a section has the size in the section's new header.
  length-section_bytes :
      (input : Bytes) (fa : ℕ) (s u : SectionHeader) (chunk : Bytes)
      → u.size ≡ (resize fa fresh i s).size
      → s.offset + s.size ≤ length input
      → section_bytes input fresh i s u ≡ ok chunk
      → length chunk ≡ u.size
  length-section_bytes input fa s u chunk e inside h = elim (Option-cases (find_data i fresh)) [
    | inl old ↦
        let copied : ok (take s.size (drop s.offset input)) ≡ ok chunk =
          sym (section_copy input s u old) ∙ h in
        let kept : u.size ≡ s.size = e ∙ ap (λ (t : SectionHeader). t.size) (resize_old fa s old) in
        let fits : s.size ≤ length (drop s.offset input) =
          omega (arith, length-drop s.offset input) in
        ground (arith, copied, kept, length-take_le s.size (drop s.offset input) fits)
    | inr (bytes, new) ↦
        let (small, padded) = section_new_ok input s u bytes chunk new h in
        ground (
          arith,
          small,
          padded,
          length-append bytes (replicate (u.size - length bytes) 0),
          length-replicate {A = ℕ} (u.size - length bytes) 0,
        )
  ]

-- The bytes from `n` on, `k` of them, are `bytes`.
abbrev pub Stored : Bytes → ℕ → Bytes → Type 0
Stored file n bytes = (rest : Bytes) × (drop n file ≡ bytes ++ rest)

-- The header of a section that is placed at `offset`.
abbrev pub placed : ℕ → ℕ → SectionHeader → SectionHeader
placed va offset s = record s { virtual_address = u32 va; offset = offset }

place_cons :
    (sa va offset : ℕ) (s : SectionHeader) (ss : List SectionHeader)
    → offset + s.size < 2 ^ 32
    → place sa va offset (s ∷ ss)
      ≡ placed va offset s ∷ place sa (align (u64 (va + s.virtual_size)) sa) (offset + s.size) ss
unfolding place
place_cons sa va offset s ss h =
    let a : u32 offset ≡ offset = omega arith in
    let b : u64 (offset + s.size) ≡ offset + s.size = omega arith in rw (a, b)

module _ (input : Bytes) (fresh : NewData) where
  write_sections_cons :
      (i : ℕ) (o u : SectionHeader) (os us : List SectionHeader) (body : Bytes)
      → write_sections input fresh i (o ∷ os) (u ∷ us) ≡ ok body
      → (chunk : Bytes) × (rest : Bytes) × (section_bytes input fresh i o u ≡ ok chunk)
        × (write_sections input fresh (i + 1) os us ≡ ok rest)
        × (chunk ++ rest ≡ body)
  unfolding write_sections
  write_sections_cons i o u os us body w =
      let (chunk, hc, w1) = >>=-ok (section_bytes input fresh i o u) _ w in
      let (rest, hr, w2) = >>=-ok (write_sections input fresh (i + 1) os us) _ w1 in
      (chunk, rest, hc, hr, ground (arith, w2))

-- A section that is written: its bytes stand at the offset in its new header.
pub record IsStored (input : Bytes) (fresh : NewData) (fa : ℕ) (file : Bytes) (i : ℕ)
    (s u : SectionHeader) : Type 0 where
  pub mapped_size : u.virtual_size ≡ (resize fa fresh i s).virtual_size
  pub raw_size : u.size ≡ (resize fa fresh i s).size
  pub chunk : Bytes
  pub written : section_bytes input fresh i s u ≡ ok chunk
  pub stored : Stored file u.offset chunk

module _ (input : Bytes) (fresh : NewData) (fa sa : ℕ) where
  pub sections-IsStored :
      (origs : List SectionHeader) (i va offset : ℕ) (before body : Bytes)
      → length before ≡ offset
      → FitsFile offset (resize_from fa fresh i origs)
      → Inside input origs
      → write_sections input fresh i origs (place sa va offset (resize_from fa fresh i origs))
        ≡ ok body
      → (k : ℕ) (s u : SectionHeader) → get_elem? origs k ≡ some s
      → get_elem? (place sa va offset (resize_from fa fresh i origs)) k ≡ some u
      → IsStored input fresh fa (before ++ body) (i + k) s u
  unfolding resize_from
  sections-IsStored [] i va offset before body lb ff ins w k s u hs hu = cc
  sections-IsStored (o ∷ os) i va offset before body lb (f0, ff) (in0, ins) w zero s u hs hu =
      let r = resize fa fresh i o in
      let step = place_cons sa va offset r (resize_from fa fresh (i + 1) os) f0 in
      let (chunk, rest, hc, hr, e) =
        write_sections_cons input fresh i o (placed va offset r) os _ body (rw step at w) in
      let here : IsStored input fresh fa (before ++ body) i o (placed va offset r) = record {
        mapped_size = refl;
        raw_size = refl;
        chunk = chunk;
        written = hc;
        stored = (rest, drop-append_of offset before body lb ∙ sym e);
      } in
      let first_is : some (placed va offset r) ≡ some u = rw step at hu in
      let same_o : o ≡ s = some-injective o s hs in
      let same_u : placed va offset r ≡ u = some-injective (placed va offset r) u first_is in
      subst (λ n. IsStored input fresh fa (before ++ body) n s u) (sym (add-zero i))
        (subst₂ (IsStored input fresh fa (before ++ body) i) same_o same_u here)
  sections-IsStored (o ∷ os) i va offset before body lb (f0, ff) (in0, ins) w (suc k) s u hs hu =
      let r = resize fa fresh i o in
      let step = place_cons sa va offset r (resize_from fa fresh (i + 1) os) f0 in
      let (chunk, rest, hc, hr, e) =
        write_sections_cons input fresh i o (placed va offset r) os _ body (rw step at w) in
      let size : length chunk ≡ r.size =
        length-section_bytes fresh i input fa o (placed va offset r) chunk refl in0 hc in
      let longer : length (before ++ chunk) ≡ offset + r.size =
        omega (arith, length-append before chunk) in
      let later =
        sections-IsStored os (i + 1) (align (u64 (va + r.virtual_size)) sa) (offset + r.size)
          (before ++ chunk) rest longer ff ins hr k s u hs (rw step at hu) in
      let whole : (before ++ chunk) ++ rest ≡ before ++ body =
        append_assoc before chunk rest ∙ ap (λ t. before ++ t) e in
      let index : i + 1 + k ≡ i + suc k = omega arith in
      subst (λ n. IsStored input fresh fa (before ++ body) n s u) index
        (subst (λ file. IsStored input fresh fa file (i + 1 + k) s u) whole later)
