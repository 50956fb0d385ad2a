-- ===== src/Ukitest/Inspected.antt =====
-- pkg/uki/ukitest/build.go: what Inspect finds in an image that was built.
use actions.Prelude.{
  ℕ, suc, ◌+◌, ◌-◌, ◌^◌, ◌≤◌, ◌<◌, ◌≡◌, refl, sym, ap, ◌∙◌, Bool, List, [], ◌∷◌, ◌++◌, append_assoc,
  map, some, ok, ok-injective, guard, guard-ok, >>=-ok, panic, arith, length, length-append,
  length-replicate, drop, drop-append_of, take, replicate, get_elem?, leb, Bool-cases, inl, inr,
  if◌then◌else◌,
}
use actions.Text.{Text, text_eq}
use actions.Uki.{
  Bytes, SectionHeader, Location, section_name, u64, align, find_cmdlines, read_cmdline,
  inspect_sections,
}
use actions.Uki.ReadBack.{clean, read_at_stored, read_cmdline-eq}
use actions.Uki.Inspected.{Reads, inspect-Reads}
use actions.Ukitest.Samples.{talos_like, reset_suffix, single_cmdline}
use actions.Ukitest.{
  Section, section_alignment, raw_size, build_headers, section_contents, build, headers_bytes,
  headers_size, first_va, signature,
}

-- The contents of the sections that are named as command lines.
abbrev pub cmdline_contents : List Section → List Bytes
cmdline_contents [] = []
cmdline_contents (s ∷ sections) =
    if text_eq (take 8 s.name) section_name
    then s.contents ∷ cmdline_contents sections
    else cmdline_contents sections

raw_size_lt : (bytes : Bytes) → raw_size bytes < 2 ^ 32
raw_size_lt bytes = omega arith

abbrev padded : Section → Bytes
padded s = s.contents ++ replicate (raw_size s.contents - length s.contents) 0

length-padded :
    (s : Section)
    → length s.contents ≤ raw_size s.contents
    → length (padded s) ≡ raw_size s.contents
length-padded s h = omega (
  arith,
  length-append s.contents (replicate (raw_size s.contents - length s.contents) 0),
  length-replicate {A = ℕ} (raw_size s.contents - length s.contents) 0,
  h,
)

-- A section is read where its header says.
read_section :
    (file before after : Bytes) (s : Section) (u : SectionHeader)
    → file ≡ before ++ (padded s ++ after)
    → length before ≡ u.offset
    → u.virtual_size ≡ length s.contents
    → length s.contents ≤ u.size
    → read_cmdline file u ≡ ok (clean s.contents)
read_section file before after s u split at v small =
    let pad = replicate (raw_size s.contents - length s.contents) 0 in
    let found : drop u.offset file ≡ s.contents ++ (pad ++ after) =
      ap (drop u.offset) split
      ∙ drop-append_of u.offset before (padded s ++ after) at
      ∙ append_assoc s.contents pad after in
    read_cmdline-eq file u s.contents v small
      (read_at_stored file u.offset s.contents (pad ++ after) found)

-- What section_contents gives for a section and those after it.
section_contents-ok :
    (s : Section) (ss : List Section) (body : Bytes)
    → section_contents (s ∷ ss) ≡ ok body
    → (rest : Bytes) × (length s.contents ≤ raw_size s.contents)
      × (section_contents ss ≡ ok rest)
      × (body ≡ padded s ++ rest)
unfolding section_contents
section_contents-ok s ss body h =
    let (u, g, h1) = >>=-ok (guard (leb (length s.contents) (raw_size s.contents)) panic) _ h in
    let small = guard-ok (leb (length s.contents) (raw_size s.contents)) panic u g in
    let (rest, found, h2) = >>=-ok (section_contents ss) _ h1 in
    (
      rest,
      ground (arith, small),
      found,
      ok-injective (sym h2)
          ∙ sym (
              append_assoc s.contents (replicate (raw_size s.contents - length s.contents) 0) rest),
    )

-- Inspect's loop finds the command lines where the headers of the sections say.
built-Reads :
    (file : Bytes) (all : List SectionHeader) (ss : List Section) (i va offset : ℕ)
    (before body after : Bytes)
    → section_contents ss ≡ ok body
    → file ≡ before ++ (body ++ after)
    → length before ≡ offset
    → offset + length body < 2 ^ 32
    → ((k : ℕ) → get_elem? all (i + k) ≡ get_elem? (build_headers va offset ss) k)
    → Reads file all (find_cmdlines i (build_headers va offset ss)) (cmdline_contents ss)
unfolding build_headers find_cmdlines
built-Reads file all [] i va offset before body after h split at fits agree = tt
built-Reads file all (s ∷ ss) i va offset before body after h split at fits agree =
    let (rest, small, found, whole) = section_contents-ok s ss body h in
    let size = length-padded s small in
    let total : length body ≡ raw_size s.contents + length rest =
      ap length whole ∙ length-append (padded s) rest ∙ ap (λ n. n + length rest) size in
    let split' : file ≡ before ++ (padded s ++ (rest ++ after)) =
      split
      ∙ ap (λ t. before ++ t) (ap (λ t. t ++ after) whole ∙ append_assoc (padded s) rest after) in
    let next : u64 (offset + raw_size s.contents) ≡ offset + raw_size s.contents = omega arith in
    let va' = align (u64 (va + length s.contents)) section_alignment in
    let split'' : file ≡ (before ++ padded s) ++ (rest ++ after) =
      split' ∙ sym (append_assoc before (padded s) (rest ++ after)) in
    let at' : length (before ++ padded s) ≡ u64 (offset + raw_size s.contents) =
      omega (arith, length-append before (padded s), size, at, next) in
    let later =
      built-Reads file all ss (i + 1) va' (u64 (offset + raw_size s.contents)) (before ++ padded s)
        rest after found split'' at' (omega (arith, next, total, fits))
        (λ k. ap (get_elem? all) (omega arith) ∙ agree (suc k)) in
    let here : (u : SectionHeader) × (get_elem? all i ≡ some u)
        × (read_cmdline file u ≡ ok (clean s.contents)) =
      (
        _,
        ap (get_elem? all) (omega arith) ∙ agree 0,
        read_section file before (rest ++ after) s _ split' (omega (arith, at, fits))
            (omega (arith, small, raw_size_lt s.contents)) small,
      ) in
    elim (Bool-cases (text_eq (take 8 s.name) section_name)) [
      | inl named ↦ rw named (here, later)
      | inr other ↦ rw other later
    ]

-- What build gives: the padded headers, the contents of the sections and the signature.
build-ok :
    (sections : List Section) (signed : Bool) (file : Bytes)
    → build sections signed ≡ ok file
    → (before : Bytes) × (body : Bytes) × (after : Bytes) × (section_contents sections ≡ ok body)
      × (file ≡ before ++ (body ++ after))
      × (length before ≡ headers_size sections)
unfolding build
build-ok sections signed file h =
    let head = headers_bytes sections signed in
    let pad = replicate {A = ℕ} (headers_size sections - length head) 0 in
    let (u, g, h1) = >>=-ok (guard (leb (length head) (headers_size sections)) panic) _ h in
    let small = guard-ok (leb (length head) (headers_size sections)) panic u g in
    let (body, found, h2) = >>=-ok (section_contents sections) _ h1 in
    let after = if signed then signature else [] in
    (
      head ++ pad,
      body,
      after,
      found,
      ok-injective (sym h2) ∙ sym (append_assoc head pad (body ++ after)),
      ground (
        arith,
        length-append head pad,
        length-replicate {A = ℕ} (headers_size sections - length head) 0,
        small,
      ),
    )

-- An image below 4 GiB that Write builds has the command lines it was given: with the section headers
-- that Write gives it, Inspect's loop succeeds and finds exactly the contents of the sections named
-- .cmdline, in order and without the white space and zeros around them.
pub build-inspect_sections :
    (sections : List Section) (signed : Bool) (file : Bytes)
    → build sections signed ≡ ok file
    → length file < 2 ^ 32
    → (locations : List Location) × (inspect_sections file
          (build_headers first_va (headers_size sections) sections)
          (find_cmdlines 0 (build_headers first_va (headers_size sections) sections))
        ≡ ok (map clean (cmdline_contents sections), locations))
build-inspect_sections sections signed file h fits =
    let (before, body, after, found, split, at) = build-ok sections signed file h in
    let headers = build_headers first_va (headers_size sections) sections in
    let total : length file ≡ length before + (length body + length after) =
      ap length split
      ∙ length-append before (body ++ after)
      ∙ ap (λ n. length before + n) (length-append body after) in
    inspect-Reads file headers (find_cmdlines 0 headers) (cmdline_contents sections) (
      built-Reads file headers sections 0 first_va (headers_size sections) before body after found
        split at (omega (arith, total, at, fits)) (λ k. ap (get_elem? headers) (omega arith)))

-- A Talos image has two command lines, that of its reset profile being the given one with ResetSuffix.
talos_like-cmdlines :
    (cmdline : Text)
    → cmdline_contents (talos_like cmdline) ≡ cmdline ∷ (cmdline ++ reset_suffix) ∷ []
unfolding talos_like single_cmdline text_eq
talos_like-cmdlines cmdline = refl

-- What Inspect's loop finds in a Talos image that Write has built.
build-talos_like :
    (cmdline : Text) (signed : Bool) (file : Bytes)
    → build (talos_like cmdline) signed ≡ ok file
    → length file < 2 ^ 32
    → (locations : List Location) × (inspect_sections file
          (build_headers first_va (headers_size (talos_like cmdline)) (talos_like cmdline))
          (find_cmdlines 0
            (build_headers first_va (headers_size (talos_like cmdline)) (talos_like cmdline)))
        ≡ ok (clean cmdline ∷ clean (cmdline ++ reset_suffix) ∷ [], locations))
build-talos_like cmdline signed file h fits =
    let (locations, found) = build-inspect_sections (talos_like cmdline) signed file h fits in
    (locations, found ∙ ap (λ t. ok (map clean t, locations)) (talos_like-cmdlines cmdline))
