-- ===== src/Uki/ReadBack.antt =====
-- pkg/uki/uki.go: readCmdline on a rewritten image.
use actions.Prelude.{
  ℕ, ◌+◌, ◌-◌, ◌≤◌, ◌≡◌, refl, sym, ap, ◌∙◌, true, ◌||◌, List, [], ◌∷◌, ◌++◌, append_assoc, some,
  ok, >>=-ok, arith, length, length-append, take, drop, take-append_of, length-take_le, length-drop,
  replicate, ltb, leb, ◌==◌, if◌then◌else◌,
}
use actions.Text.{Text, trim_right}
use actions.Text.Utf8.{trim_space_bytes}
use actions.Uki.{Bytes, SectionHeader, Layout, u32, align, read_at, read_cmdline}
use actions.Uki.Write.{NewData, find_data, patch, put_u32, put_entry, put_entries, u32_bytes}
use actions.Uki.Content.{IsStored, section_new_ok, resize_new}

-- What readCmdline makes of the bytes of a command line.
abbrev pub clean : Bytes → Text
clean bytes = trim_space_bytes (trim_right (λ c. c == 0) bytes)

pub read_at_stored :
    (file : Bytes) (off : ℕ) (bytes more : Bytes)
    → drop off file ≡ bytes ++ more
    → read_at file off (length bytes) ≡ ok bytes
unfolding read_at
read_at_stored file off bytes more e =
    let taken : take (length bytes) (drop off file) ≡ bytes =
      ap (take (length bytes)) e ∙ take-append_of (length bytes) bytes more refl in
    let size : length file - off ≡ length bytes + length more =
      sym (length-drop off file) ∙ ap length e ∙ length-append bytes more in
    let inside : (length bytes == 0 || leb (off + length bytes) (length file)) ≡ true =
      ground (arith, size) in
    rw (inside, taken)

-- readCmdline takes the smaller of the two sizes.
pub read_cmdline-eq :
    (file : Bytes) (u : SectionHeader) (bytes : Bytes)
    → u.virtual_size ≡ length bytes
    → length bytes ≤ u.size
    → read_at file u.offset (length bytes) ≡ ok bytes
    → read_cmdline file u ≡ ok (clean bytes)
unfolding read_cmdline
read_cmdline-eq file u bytes v small e =
    let n : (if ltb u.size u.virtual_size then u.size else u.virtual_size) ≡ length bytes =
      ground (arith, v, small) in
    rw (n, e)

-- A new command line is read back.
module _ (input : Bytes) (fresh : NewData) (fa : ℕ) (file : Bytes) (i : ℕ) (s u : SectionHeader)
    (st : IsStored input fresh fa file i s u) (bytes : Bytes)
    (new : find_data i fresh ≡ some bytes) where
  pub read_stored : read_cmdline file u ≡ ok (clean bytes)
  read_stored =
      let (small, padded) = section_new_ok fresh i input s u bytes st.chunk new st.written in
      let (rest, at) = st.stored in
      let pad = replicate {A = ℕ} (u.size - length bytes) 0 in
      let v : u.virtual_size ≡ u32 (length bytes) =
        st.mapped_size
        ∙ ap (λ (t : SectionHeader). t.virtual_size) (resize_new fresh i fa s bytes new) in
      let z : u.size ≡ u32 (align (length bytes) fa) =
        st.raw_size ∙ ap (λ (t : SectionHeader). t.size) (resize_new fresh i fa s bytes new) in
      let found : drop u.offset file ≡ bytes ++ (pad ++ rest) =
        at ∙ ap (λ t. t ++ rest) padded ∙ append_assoc bytes pad rest in
      read_cmdline-eq file u bytes (omega arith) small
        (read_at_stored file u.offset bytes (pad ++ rest) found)

-- What putU32 writes, where it does not panic.
put_u32_ok :
    (p : Bytes) (off v : ℕ) (q : Bytes)
    → put_u32 p off v ≡ ok q
    → (off + 4 ≤ length p) × (q ≡ take off p ++ (u32_bytes v ++ drop (off + 4) p))
unfolding put_u32
put_u32_ok p off v q h = (ground (arith, h), ground (arith, h))

length-put_u32 : (p : Bytes) (off v : ℕ) (q : Bytes) → put_u32 p off v ≡ ok q → length q ≡ length p
length-put_u32 p off v q h =
    let (inside, e) = put_u32_ok p off v q h in
    let parts : length q ≡ length (take off p) + length (u32_bytes v ++ drop (off + 4) p) =
      ap length e ∙ length-append (take off p) (u32_bytes v ++ drop (off + 4) p) in
    let four : length (u32_bytes v ++ drop (off + 4) p) ≡ 4 + length (drop (off + 4) p) =
      unfold u32_bytes in omega arith in
    omega (arith, length-take_le off p (omega arith), length-drop (off + 4) p)

length-put_entry :
    (table : ℕ) (p : Bytes) (i : ℕ) (s : SectionHeader) (q : Bytes)
    → put_entry table p i s ≡ ok q
    → length q ≡ length p
unfolding put_entry
length-put_entry table p i s q h =
    let (a, ha, h1) = >>=-ok _ _ h in
    let (b, hb, h2) = >>=-ok _ _ h1 in
    let (c, hc, h3) = >>=-ok _ _ h2 in
    length-put_u32 c _ _ q h3
    ∙ length-put_u32 b _ _ c hc
    ∙ length-put_u32 a _ _ b hb
    ∙ length-put_u32 p _ _ a ha

length-put_entries :
    (table : ℕ) (ss : List SectionHeader) (p : Bytes) (i : ℕ) (q : Bytes)
    → put_entries table p i ss ≡ ok q
    → length q ≡ length p
unfolding put_entries
length-put_entries table [] p i q h = ground (arith, h)
length-put_entries table (s ∷ ss) p i q h =
    let (a, ha, h1) = >>=-ok (put_entry table p i s) _ h in
    length-put_entries table ss a (i + 1) q h1 ∙ length-put_entry table p i s a ha

pub length-patch :
    (l : Layout) (n size : ℕ) (updated : List SectionHeader) (p q : Bytes)
    → patch l n size updated p ≡ ok q
    → length q ≡ length p
unfolding patch
length-patch l n size updated p q h =
    let (a, ha, h1) = >>=-ok _ _ h in
    let (b, hb, h2) = >>=-ok _ _ h1 in
    let (c, hc, h3) = >>=-ok _ _ h2 in
    let (d, hd, h4) = >>=-ok _ _ h3 in
    let (e, he, h5) = >>=-ok _ _ h4 in
    let (f, hf, h6) = >>=-ok _ _ h5 in
    length-put_entries _ _ f n q h6
    ∙ length-put_u32 e _ _ f hf
    ∙ length-put_u32 d _ _ e he
    ∙ length-put_u32 c _ _ d hd
    ∙ length-put_u32 b _ _ c hc
    ∙ length-put_u32 a _ _ b hb
    ∙ length-put_u32 p _ _ a ha
