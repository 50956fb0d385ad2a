-- ===== src/Meta/Kept.antt =====
-- pkg/meta/meta.go: what WriteTag leaves as it was.
use actions.Prelude.{
  ℕ, ◌+◌, ◌≤◌, ◌≡◌, ◌≢◌, refl, sym, ap, subst, ◌∙◌, ◌++◌, append_assoc, Option, some, ok, on_ok,
  ok-injective, or_err-ok, arith, length, length-append, take, drop, take-append_of, drop-append_of,
  or_err, does_not_fit,
}
use actions.Uki.{Bytes}
use actions.Partition.{Table}
use actions.Meta.{AdvLib, Region, meta_locate, load, flush_adv, read_tag, write_tag}
use actions.Meta.Spliced.{Parts-of}
use actions.Meta.ReadBack.{
  AdvLaws, flush-whole, flush-section, load_fits, read_either_cong, read_after,
}

-- Setting a tag leaves the others, as go-adv does.
abbrev pub SetsOne : AdvLib → Type 0
SetsOne lib =
    (t : lib.Talos) (tag : ℕ) (value : Bytes) (t2 : lib.Talos) (other : ℕ)
    → lib.set_talos t tag value ≡ some t2
    → other ≢ tag
    → lib.read_talos t2 other ≡ lib.read_talos t other

-- The bytes around a region are the same.
abbrev pub SameOutside : Region → Bytes → Bytes → Type 0
SameOutside p file out =
    (length out ≡ length file)
    × (take p.offset out ≡ take p.offset file)
    × (drop (p.offset + p.size) out ≡ drop (p.offset + p.size) file)

-- A file of which the region is put together from three byte strings.
around :
    (p : Region) (before x y z after : Bytes)
    → length before ≡ p.offset
    → length x + length y + length z ≡ p.size
    → (length (before ++ (x ++ (y ++ (z ++ after)))) ≡ p.offset + p.size + length after)
      × (take p.offset (before ++ (x ++ (y ++ (z ++ after)))) ≡ before)
      × (drop (p.offset + p.size) (before ++ (x ++ (y ++ (z ++ after)))) ≡ after)
around p before x y z after a b =
    let n1 = length-append before (x ++ (y ++ (z ++ after))) in
    let n2 = length-append x (y ++ (z ++ after)) in
    let n3 = length-append y (z ++ after) in
    let n4 = length-append z after in
    let m1 = length-append before (x ++ (y ++ z)) in
    let m2 = length-append x (y ++ z) in
    let m3 = length-append y z in
    let joined : before ++ (x ++ (y ++ (z ++ after))) ≡ (before ++ (x ++ (y ++ z))) ++ after = sym (
      append_assoc before (x ++ (y ++ z)) after
      ∙ ap (λ w. before ++ w) (append_assoc x (y ++ z) after)
      ∙ ap (λ w. before ++ (x ++ w)) (append_assoc y z after)) in
    (
      omega (arith, n1, n2, n3, n4, a, b),
      take-append_of p.offset before _ a,
      ap (drop (p.offset + p.size)) joined
          ∙ drop-append_of (p.offset + p.size) (before ++ (x ++ (y ++ z))) after
              (omega (arith, m1, m2, m3, a, b)),
    )

module _ (lib : AdvLib) (laws : AdvLaws lib) where
  flush-SameOutside :
      (file : Bytes) (p : Region) (t : lib.Talos) (l : lib.Legacy) (out : Bytes)
      → lib.talos_size + lib.legacy_size ≤ p.size
      → p.offset + p.size ≤ length file
      → flush_adv lib file p t l ≡ ok out
      → SameOutside p file out
  flush-SameOutside file p t l out fits inside h =
      let parts = Parts-of file p lib.talos_size lib.legacy_size fits inside in
      let (b, lb, tb, lbs, whole) = flush-whole lib laws file p t l out parts h in
      let m = parts.middle in
      let (new_length, new_take, new_drop) =
        around p parts.before b m lb parts.after parts.length_before (
          omega
            (arith, laws.length_talos t b tb, laws.length_legacy l lb lbs, parts.length_middle)) in
      let (old_length, old_take, old_drop) =
        around p parts.before parts.first m parts.last parts.after parts.length_before
          (omega (arith, parts.length_first, parts.length_last, parts.length_middle)) in
      (
        ap length whole ∙ new_length ∙ sym (ap length parts.whole ∙ old_length),
        ap (take p.offset) whole ∙ new_take ∙ sym (ap (take p.offset) parts.whole ∙ old_take),
        ap (drop (p.offset + p.size)) whole
            ∙ new_drop
            ∙ sym (ap (drop (p.offset + p.size)) parts.whole ∙ old_drop),
      )

  -- The same of a WriteTag that succeeds.
  pub write_tag-SameOutside :
      (table_of : Bytes → Option Table) (file : Bytes) (tag : ℕ) (value out : Bytes) (p : Region)
      → meta_locate (table_of file) ≡ ok p
      → p.offset + p.size ≤ length file
      → write_tag lib table_of file tag value ≡ ok out
      → SameOutside p file out
  unfolding write_tag
  write_tag-SameOutside table_of file tag value out p found inside h =
      on_ok (meta_locate (table_of file)) _ h (λ q hq h1.
        let pq : q ≡ p = ok-injective (sym hq ∙ found) in
        on_ok (load lib file q) _ h1 (λ r hr h2.
          on_ok (or_err (lib.set_talos r.0 tag value) does_not_fit) _ h2 (λ t ht h3.
            flush-SameOutside file p t r.1 out
              (load_fits lib laws file p r (subst (λ z. load lib file z ≡ ok r) pq hr)).1 inside
              (subst (λ z. flush_adv lib file z t r.1 ≡ ok out) pq h3))))

  -- Under the laws of go-adv and where setting a tag leaves the others, a WriteTag that succeeds keeps
  -- the length of the disk, all its bytes outside the META partition, and what ReadTag returns for
  -- every other tag, of either ADV: the partition lies in the disk, and the partition table is the
  -- same after the write.
  pub write_tag_keeps :
      (sets_one : SetsOne lib) (table_of : Bytes → Option Table) (file : Bytes) (tag : ℕ)
      (value out : Bytes) (p : Region)
      → meta_locate (table_of file) ≡ ok p
      → p.offset + p.size ≤ length file
      → table_of out ≡ table_of file
      → write_tag lib table_of file tag value ≡ ok out
      → (other : ℕ) → other ≢ tag
      → SameOutside p file out
        × (read_tag lib table_of out other ≡ read_tag lib table_of file other)
  unfolding write_tag read_tag
  write_tag_keeps sets_one table_of file tag value out p found inside same h other ne =
      on_ok (meta_locate (table_of file)) _ h (λ q hq h1.
        let pq : q ≡ p = ok-injective (sym hq ∙ found) in
        on_ok (load lib file q) _ h1 (λ r hr h2.
          on_ok (or_err (lib.set_talos r.0 tag value) does_not_fit) _ h2 (λ t ht h3.
            let loaded : load lib file p ≡ ok r = subst (λ z. load lib file z ≡ ok r) pq hr in
            let fits = load_fits lib laws file p r loaded in
            let set = or_err-ok (lib.set_talos r.0 tag value) does_not_fit t ht in
            let flushed : flush_adv lib file p t r.1 ≡ ok out =
              subst (λ z. flush_adv lib file z t r.1 ≡ ok out) pq h3 in
            let (b, lb, middle, tb, lbs, sec) =
              flush-section lib laws file p t r.1 out fits.1 inside flushed in
            let at : meta_locate (table_of out) ≡ ok p = ap meta_locate same ∙ found in
            (
              flush-SameOutside file p t r.1 out fits.1 inside flushed,
              simp (at, found, loaded)
                  (read_after lib laws p out t r.1 b lb middle other fits tb lbs sec
                    ∙ ap ok (
                        read_either_cong lib laws r.0 t r.1 r.1 other
                          (sets_one r.0 tag value t other set ne) refl)),
            ))))
