-- ===== src/Uki/Inspected.antt =====
-- pkg/uki/uki.go: what Inspect finds in an image that write has written.
use mathlib.Core.Path.{subst₂, subst₃}
use mathlib.Core.Option.{some-injective}
use actions.Prelude.{
  ℕ, zero, suc, ◌+◌, ◌-◌, ◌≡◌, refl, sym, ap, subst, ◌∙◌, List, [], ◌∷◌, map, some, ok,
  ok-injective, arith, length, panic, All, drop, get_elem?, get_elem?-drop,
}
use actions.Uki.{
  Bytes, SectionHeader, Layout, Location, u64, align, read_cmdline, first, inspect_sections,
  find_cmdlines,
}
use actions.Uki.Write.{NewData, find_data, new_data, resize_from, place, relayout, write}
use actions.Uki.Content.{FitsFile, Inside, IsStored, sections-IsStored}
use actions.Uki.ReadBack.{clean, read_stored}
use actions.Uki.Indexes.{
  Ascending, Ascending-le, Finds, IsIndex, find_cmdlines-Ascending, find_cmdlines-IsIndex,
  new_data-Finds, get_elem?-resize_from,
}
use actions.Uki.Rewritten.{Run, write-Run, relayout_tail, or_err-eq-ok}

get-place :
    (sa va offset : ℕ) (rs : List SectionHeader) (k : ℕ) (r : SectionHeader)
    → get_elem? rs k ≡ some r
    → (u : SectionHeader) × (get_elem? (place sa va offset rs) k ≡ some u)
unfolding place
get-place sa va offset [] k r h = cc
get-place sa va offset (s ∷ rs) zero r h = (_, refl)
get-place sa va offset (s ∷ rs) (suc k) r h =
    get-place sa (align (u64 (va + s.virtual_size)) sa) (u64 (offset + s.size)) rs k r h

-- At each index stands a section whose command line is read as the given one.
abbrev pub Reads : Bytes → List SectionHeader → List ℕ → List Bytes → Type 0
Reads file updated [] [] = Unit
Reads file updated (i ∷ is) (bytes ∷ cs) =
    ((u : SectionHeader) × (get_elem? updated i ≡ some u)
      × (read_cmdline file u ≡ ok (clean bytes)))
    × Reads file updated is cs
Reads file updated _ _ = ⊥

pub inspect-Reads :
    (file : Bytes) (updated : List SectionHeader) (is : List ℕ) (cs : List Bytes)
    → Reads file updated is cs
    → (locations : List Location) × (inspect_sections file updated is
        ≡ ok (map clean cs, locations))
unfolding inspect_sections
inspect-Reads file updated [] [] h = ([], refl)
inspect-Reads file updated [] (c ∷ cs) h = absurd h
inspect-Reads file updated (i ∷ is) [] h = absurd h
inspect-Reads file updated (i ∷ is) (c ∷ cs) ((u, g, r), h) =
    let (locations, e) = inspect-Reads file updated is cs h in
    ((record { section = i; offset = u.offset; size = u.virtual_size }) ∷ locations, rw (g, r, e))

module _ (input : Bytes) (l : Layout) (cmdlines : List Bytes) (out : Bytes)
    (r : Run input l cmdlines out)
    (fits : FitsFile r.base.offset
      (resize_from l.optional.file_alignment r.fresh r.n (drop r.n l.sections)))
    (inside : Inside input (drop r.n l.sections)) where
  abbrev old_tail : List SectionHeader
  old_tail = drop r.n l.sections

  abbrev new_tail : List SectionHeader
  new_tail =
      place l.optional.section_alignment r.base.virtual_address r.base.offset
        (resize_from l.optional.file_alignment r.fresh r.n old_tail)

  tail_eq : drop r.n r.updated ≡ new_tail
  tail_eq =
      relayout_tail l.optional.file_alignment l.optional.section_alignment r.n r.fresh l.sections
        r.updated r.base r.at_updated r.at_base

  -- Every section from the first .cmdline on is stored where its new header says.
  pub Run-IsStored :
      (k : ℕ) (s u : SectionHeader)
      → get_elem? l.sections (r.n + k) ≡ some s
      → get_elem? r.updated (r.n + k) ≡ some u
      → IsStored input r.fresh l.optional.file_alignment out (r.n + k) s u
  Run-IsStored k s u hs hu =
      subst (λ file. IsStored input r.fresh l.optional.file_alignment file (r.n + k) s u) r.at_out
        (sections-IsStored input r.fresh l.optional.file_alignment l.optional.section_alignment
          old_tail r.n r.base.virtual_address r.base.offset r.headers r.body r.at_headers fits
          inside (rw tail_eq at r.at_body) k s u (get_elem?-drop l.sections r.n k ∙ hs)
          (ap (λ t. get_elem? t k) (sym tail_eq) ∙ get_elem?-drop r.updated r.n k ∙ hu))

  Reads_at :
      (k : ℕ) (s : SectionHeader) (bytes : Bytes)
      → get_elem? l.sections (r.n + k) ≡ some s
      → find_data (r.n + k) r.fresh ≡ some bytes
      → (u : SectionHeader) × (get_elem? r.updated (r.n + k) ≡ some u)
        × (read_cmdline out u ≡ ok (clean bytes))
  Reads_at k s bytes hs hf =
      let at_tail =
        get_elem?-resize_from l.optional.file_alignment r.fresh old_tail r.n k s
          (get_elem?-drop l.sections r.n k ∙ hs) in
      let (u, hu) =
        get-place l.optional.section_alignment r.base.virtual_address r.base.offset _ k _ at_tail in
      let hu' : get_elem? r.updated (r.n + k) ≡ some u =
        sym (get_elem?-drop r.updated r.n k) ∙ ap (λ t. get_elem? t k) tail_eq ∙ hu in
      (
        u,
        hu',
        read_stored input r.fresh l.optional.file_alignment out (r.n + k) s u
            (Run-IsStored k s u hs hu') bytes hf,
      )

  Reads-All :
      (is : List ℕ) (cs : List Bytes)
      → Ascending r.n is
      → All (IsIndex l.sections 0) is
      → Finds r.fresh is cs
      → Reads out r.updated is cs
  Reads-All [] [] asc ix f = tt
  Reads-All [] (c ∷ cs) asc ix f = f
  Reads-All (i ∷ is) [] asc ix f = f
  Reads-All (i ∷ is) (c ∷ cs) (lo, asc) ((k, s, e, g), ix) (f0, f) =
      let m = i - r.n in
      let at_i : r.n + m ≡ i = omega arith in
      let at_k : k ≡ i = omega arith in
      let here =
        Reads_at m s c (ap (get_elem? l.sections) (at_i ∙ sym at_k) ∙ g)
          (ap (λ t. find_data t r.fresh) at_i ∙ f0) in
      (
        subst
            (λ t.
              (u : SectionHeader) × (get_elem? r.updated t ≡ some u)
              × (read_cmdline out u ≡ ok (clean c)))
            at_i here,
        Reads-All is cs (Ascending-le is r.n (suc i) (omega arith) asc) ix f,
      )

first-Ascending :
    (l : Layout) (n low : ℕ) → Ascending low l.cmdlines → first l ≡ ok n → Ascending n l.cmdlines
unfolding first
first-Ascending l n low asc h =
    from_head l.cmdlines asc (or_err-eq-ok (get_elem? l.cmdlines 0) panic n h)
  where
    from_head : (is : List ℕ) → Ascending low is → get_elem? is 0 ≡ some n → Ascending n is
    from_head [] asc e = tt
    from_head (i ∷ is) (lo, asc) e = (ground (arith, e), asc)

-- After a write that succeeds, Inspect's loop finds in the new file, with the new section headers,
-- exactly the command lines that were given, in order and without the white space and zeros around
-- them. The .cmdline sections are those of the layout, one command line is given for each, the old
-- sections from the first of them on lie in the file, and the new ones end below 4 GiB.
pub write-inspect_sections :
    (input out : Bytes) (l : Layout) (cmdlines : List Bytes) (fresh : NewData) (n : ℕ)
    (base : SectionHeader)
    → l.cmdlines ≡ find_cmdlines 0 l.sections
    → length cmdlines ≡ length l.cmdlines
    → new_data l.cmdlines cmdlines ≡ ok fresh
    → first l ≡ ok n
    → get_elem? l.sections n ≡ some base
    → FitsFile base.offset (resize_from l.optional.file_alignment fresh n (drop n l.sections))
    → Inside input (drop n l.sections)
    → write input l cmdlines ≡ ok out
    → (updated : List SectionHeader) × (locations : List Location) × (relayout
          l.optional.file_alignment l.optional.section_alignment fresh n l.sections
        ≡ ok updated)
      × (inspect_sections out updated l.cmdlines ≡ ok (map clean cmdlines, locations))
write-inspect_sections input out l cmdlines fresh n base ix count hf hn hb fits inside w =
    let r = write-Run input l cmdlines out w in
    let same_fresh : r.fresh ≡ fresh = ok-injective (sym r.at_fresh ∙ hf) in
    let same_n : r.n ≡ n = ok-injective (sym r.at_first ∙ hn) in
    let fa = l.optional.file_alignment in
    let same_base : r.base ≡ base =
      some-injective r.base base (sym r.at_base ∙ ap (get_elem? l.sections) same_n ∙ hb) in
    let fits' : FitsFile r.base.offset (resize_from fa r.fresh r.n (drop r.n l.sections)) =
      subst₃ (λ d m (b : SectionHeader). FitsFile b.offset (resize_from fa d m (drop m l.sections)))
        (sym same_fresh) (sym same_n) (sym same_base) fits in
    let inside' = subst (λ m. Inside input (drop m l.sections)) (sym same_n) inside in
    let asc : Ascending 0 l.cmdlines =
      subst (Ascending 0) (sym ix) (find_cmdlines-Ascending l.sections 0) in
    let indexes : All (IsIndex l.sections 0) l.cmdlines =
      subst (λ is. All (IsIndex l.sections 0) is) (sym ix) (find_cmdlines-IsIndex l.sections 0) in
    let finds = new_data-Finds l.cmdlines cmdlines 0 r.fresh asc count r.at_fresh in
    let (locations, found) = inspect-Reads out r.updated l.cmdlines cmdlines (
      Reads-All input l cmdlines out r fits' inside' l.cmdlines cmdlines
        (first-Ascending l r.n 0 asc r.at_first) indexes finds) in
    (
      r.updated,
      locations,
      subst₂ (λ d m. relayout fa l.optional.section_alignment d m l.sections ≡ ok r.updated)
          same_fresh same_n r.at_updated,
      found,
    )
