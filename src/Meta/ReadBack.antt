-- ===== src/Meta/ReadBack.antt =====
-- pkg/meta/meta.go: ReadTag after WriteTag.
use actions.Prelude.{
  ℕ, ◌+◌, ◌-◌, ◌≤◌, ◌<◌, ◌^◌, ◌&&◌, ltb, guard-ok, ◌≡◌, refl, sym, ap, subst, ◌∙◌, ◌++◌,
  append_assoc, Option, some, ok, on_ok, ok-injective, or_err-ok, ◌>>=◌, arith, length,
  length-append, leb, guard, or_err, meta_too_small, not_serialized, does_not_fit, true,
  Option-cases, inl, inr,
}
use actions.Uki.{Bytes}
use actions.Partition.{Table}
use actions.Meta.{
  AdvLib, Region, meta_locate, section, write_at, load, flush_adv, read_either, read_tag, write_tag,
}
use actions.Meta.Spliced.{overwrite, Parts, Parts-of, section-parts}

-- What the package relies on in go-adv: the bytes have the sizes that they have in the partition; an
-- ADV is found again in a section that starts, or for the legacy one ends, with its bytes; and a tag
-- that is set is read.
pub record AdvLaws (lib : AdvLib) : Type 0 where
  pub length_talos :
      (t : lib.Talos) (b : Bytes) → lib.talos_bytes t ≡ some b → length b ≡ lib.talos_size
  pub length_legacy :
      (l : lib.Legacy) (b : Bytes) → lib.legacy_bytes l ≡ some b → length b ≡ lib.legacy_size
  pub reload_talos :
      (t : lib.Talos) (b rest : Bytes)
      → lib.talos_bytes t ≡ some b
      → (t2 : lib.Talos) × (lib.load_talos (b ++ rest) ≡ some t2)
        × ((tag : ℕ) → lib.read_talos t2 tag ≡ lib.read_talos t tag)
  pub reload_legacy :
      (l : lib.Legacy) (b before : Bytes)
      → lib.legacy_bytes l ≡ some b
      → (l2 : lib.Legacy) × (lib.load_legacy (before ++ b) ≡ some l2)
        × ((tag : ℕ) → lib.read_legacy l2 tag ≡ lib.read_legacy l tag)
  pub read_set :
      (t : lib.Talos) (tag : ℕ) (value : Bytes) (t2 : lib.Talos)
      → lib.set_talos t tag value ≡ some t2
      → lib.read_talos t2 tag ≡ some value

regroup : (a b c d : Bytes) → (a ++ (b ++ c)) ++ d ≡ a ++ (b ++ (c ++ d))
regroup a b c d = append_assoc a (b ++ c) d ∙ ap (λ z. a ++ z) (append_assoc b c d)

-- The file after both writes: only the head and the tail of the region have changed.
pub written_whole :
    (p : Region) (file written out b lb : Bytes) (head tail : ℕ) (parts : Parts file p head tail)
    → length b ≡ head
    → length lb ≡ tail
    → write_at p.offset b file ≡ ok written
    → write_at (p.offset + p.size - length lb) lb written ≡ ok out
    → out ≡ parts.before ++ (b ++ (parts.middle ++ (lb ++ parts.after)))
written_whole p file written out b lb head tail parts n1 n2 w h =
    let a = parts.before in
    let m = parts.middle in
    let first_write : written ≡ a ++ (b ++ (m ++ (parts.last ++ parts.after))) = ok-injective (
      sym w
      ∙ ap (write_at p.offset b) parts.whole
      ∙ overwrite a parts.first (m ++ (parts.last ++ parts.after)) b p.offset parts.length_before
          (parts.length_first ∙ sym n1)) in
    let place : length (a ++ (b ++ m)) ≡ p.offset + p.size - length lb = omega (
      arith,
      length-append a (b ++ m),
      length-append b m,
      parts.length_before,
      parts.length_middle,
      n1,
      n2,
    ) in
    ok-injective (
      sym h
      ∙ ap (write_at (p.offset + p.size - length lb) lb)
          (first_write ∙ sym (regroup a b m (parts.last ++ parts.after)))
      ∙ overwrite (a ++ (b ++ m)) parts.last parts.after lb (p.offset + p.size - length lb) place
          (parts.length_last ∙ sym n2))
    ∙ regroup a b m (lb ++ parts.after)

module _ (lib : AdvLib) (laws : AdvLaws lib) where
  -- What flush leaves: the file with the bytes of both ADVs at the ends of the region.
  pub flush-whole :
      (file : Bytes) (p : Region) (t : lib.Talos) (l : lib.Legacy) (out : Bytes)
      (parts : Parts file p lib.talos_size lib.legacy_size)
      → flush_adv lib file p t l ≡ ok out
      → (b lb : Bytes) × (lib.talos_bytes t ≡ some b)
        × (lib.legacy_bytes l ≡ some lb)
        × (out ≡ parts.before ++ (b ++ (parts.middle ++ (lb ++ parts.after))))
  unfolding flush_adv
  flush-whole file p t l out parts h =
      on_ok (or_err (lib.talos_bytes t) not_serialized) _ h (λ b hb h1.
        on_ok (write_at p.offset b file) _ h1 (λ written w h2.
          on_ok (or_err (lib.legacy_bytes l) not_serialized) _ h2 (λ lb hl h3.
            let tb = or_err-ok (lib.talos_bytes t) not_serialized b hb in
            let lbs = or_err-ok (lib.legacy_bytes l) not_serialized lb hl in
            (
              b,
              lb,
              tb,
              lbs,
              written_whole p file written out b lb lib.talos_size lib.legacy_size parts
                  (laws.length_talos t b tb) (laws.length_legacy l lb lbs) w h3,
            ))))

  -- The region then.
  pub flush-section :
      (file : Bytes) (p : Region) (t : lib.Talos) (l : lib.Legacy) (out : Bytes)
      → lib.talos_size + lib.legacy_size ≤ p.size
      → p.offset + p.size ≤ length file
      → flush_adv lib file p t l ≡ ok out
      → (b lb middle : Bytes) × (lib.talos_bytes t ≡ some b)
        × (lib.legacy_bytes l ≡ some lb)
        × (section p out ≡ b ++ (middle ++ lb))
  flush-section file p t l out fits inside h =
      let parts = Parts-of file p lib.talos_size lib.legacy_size fits inside in
      let (b, lb, tb, lbs, whole) = flush-whole file p t l out parts h in
      (
        b,
        lb,
        parts.middle,
        tb,
        lbs,
        ap (section p) whole
            ∙ section-parts p parts.before b parts.middle lb parts.after parts.length_before (
                omega (
                  arith,
                  laws.length_talos t b tb,
                  laws.length_legacy l lb lbs,
                  parts.length_middle,
                )),
      )

  pub load_fits :
      (file : Bytes) (p : Region) (r : lib.Talos × lib.Legacy)
      → load lib file p ≡ ok r
      → (p.size < 2 ^ 63) × (lib.talos_size + lib.legacy_size ≤ p.size)
  unfolding load
  load_fits file p r h =
      on_ok
        (guard (ltb p.size (2 ^ 63) && leb (lib.talos_size + lib.legacy_size) p.size)
          meta_too_small)
        _ h
        (λ u g _.
          let small = guard-ok _ meta_too_small u g in
          ((ground (arith, small)), (ground (arith, small))))

  -- What is read depends on what the ADVs read.
  pub read_either_cong :
      (t t2 : lib.Talos) (l l2 : lib.Legacy) (tag : ℕ)
      → lib.read_talos t2 tag ≡ lib.read_talos t tag
      → lib.read_legacy l2 tag ≡ lib.read_legacy l tag
      → read_either lib t2 l2 tag ≡ read_either lib t l tag
  unfolding read_either
  read_either_cong t t2 l l2 tag h k = elim (Option-cases (lib.read_talos t tag)) [
    | inr (v, e) ↦ rw (h ∙ e, e, read_either) refl
    | inl e ↦ rw (h ∙ e, e, read_either) k
  ]

  -- A region with the bytes of these ADVs at its ends is read as the ADVs are.
  pub read_after :
      (p : Region) (out : Bytes) (t : lib.Talos) (l : lib.Legacy) (b lb middle : Bytes) (tag : ℕ)
      → (p.size < 2 ^ 63) × (lib.talos_size + lib.legacy_size ≤ p.size)
      → lib.talos_bytes t ≡ some b
      → lib.legacy_bytes l ≡ some lb
      → section p out ≡ b ++ (middle ++ lb)
      → (load lib out p >>= λ r. ok (read_either lib r.0 r.1 tag)) ≡ ok (read_either lib t l tag)
  unfolding load
  read_after p out t l b lb middle tag fits tb lbs sec =
      let (t2, lt, rt) = laws.reload_talos t b (middle ++ lb) tb in
      let (l2, ll, rl) = laws.reload_legacy l lb (b ++ middle) lbs in
      let test : (ltb p.size (2 ^ 63) && leb (lib.talos_size + lib.legacy_size) p.size) ≡ true =
        ground (arith, fits) in
      let lt2 : lib.load_talos (section p out) ≡ some t2 = ap lib.load_talos sec ∙ lt in
      let ll2 : lib.load_legacy (section p out) ≡ some l2 =
        ap lib.load_legacy (sec ∙ sym (append_assoc b middle lb)) ∙ ll in
      simp (test, lt2, ll2) (ap ok (read_either_cong t t2 l l2 tag (rt tag) (rl tag)))

  read_first :
      (t : lib.Talos) (l : lib.Legacy) (tag : ℕ) (value : Bytes)
      → lib.read_talos t tag ≡ some value
      → read_either lib t l tag ≡ some value
  unfolding read_either
  read_first t l tag value h = rw (h, read_either) refl

  -- Under the laws of go-adv above, where WriteTag succeeds, ReadTag returns the value: the partition
  -- lies in the disk, and the partition table is the same after the write.
  pub read_tag-write_tag :
      (table_of : Bytes → Option Table) (file : Bytes) (tag : ℕ) (value out : Bytes) (p : Region)
      → meta_locate (table_of file) ≡ ok p
      → p.offset + p.size ≤ length file
      → table_of out ≡ table_of file
      → write_tag lib table_of file tag value ≡ ok out
      → read_tag lib table_of out tag ≡ ok (some value)
  unfolding write_tag read_tag
  read_tag-write_tag table_of file tag value out p found inside same h =
      on_ok (meta_locate (table_of file)) _ h (λ q hq h1.
        let pq : q ≡ p = ok-injective (sym hq ∙ found) in
        on_ok (load lib file q) _ h1 (λ r hr h2.
          on_ok (or_err (lib.set_talos r.0 tag value) does_not_fit) _ h2 (λ t ht h3.
            let fits : (p.size < 2 ^ 63) × (lib.talos_size + lib.legacy_size ≤ p.size) =
              load_fits file p r (subst (λ z. load lib file z ≡ ok r) pq hr) in
            let set = or_err-ok (lib.set_talos r.0 tag value) does_not_fit t ht in
            let (b, lb, middle, tb, lbs, sec) =
              flush-section file p t r.1 out fits.1 inside
                (subst (λ z. flush_adv lib file z t r.1 ≡ ok out) pq h3) in
            let at : meta_locate (table_of out) ≡ ok p = ap meta_locate same ∙ found in
            simp at (
              read_after p out t r.1 b lb middle tag fits tb lbs sec
              ∙ ap ok (read_first t r.1 tag value (laws.read_set r.0 tag value t set))))))
