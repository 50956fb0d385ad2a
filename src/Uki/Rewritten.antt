-- ===== src/Uki/Rewritten.antt =====
-- pkg/uki/uki.go: the runs of write, taken apart.
use native.Mathlib.Nat.{zero-add}
use actions.Prelude.{
  ℕ, zero, suc, ◌≡◌, refl, sym, ap, ◌∙◌, not, ◌||◌, List, ◌++◌, Option, none, some, Error, ok,
  guard, on_ok, ok-injective, arith, length, or_err, panic, bad_alignment, take, drop, get_elem?,
  drop-append_of, length-take_le, length-drop, lt-length_of_get, Option-cases, inl, inr, ◌==◌,
}
use actions.Uki.{Bytes, SectionHeader, Layout, read_at, first}
use actions.Uki.Write.{
  NewData, find_data, new_data, resize, resize_from, place, relayout, last_section, patch,
  write_sections, write,
}
use actions.Uki.Content.{resize_old, resize_new}
use actions.Uki.ReadBack.{length-patch}
use actions.Uki.Indexes.{get_elem?-resize_from, drop-resize_from}

-- The parts of a run of write that succeeds.
pub record Run (input : Bytes) (l : Layout) (cmdlines : List Bytes) (out : Bytes) : Type 0 where
  pub fresh : NewData
  pub n : ℕ
  pub updated : List SectionHeader
  pub base : SectionHeader
  pub headers : Bytes
  pub body : Bytes
  pub at_fresh : new_data l.cmdlines cmdlines ≡ ok fresh
  pub at_first : first l ≡ ok n
  pub at_updated :
      relayout l.optional.file_alignment l.optional.section_alignment fresh n l.sections
      ≡ ok updated
  pub at_base : get_elem? l.sections n ≡ some base
  pub at_headers : length headers ≡ base.offset
  pub at_body : write_sections input fresh n (drop n l.sections) (drop n updated) ≡ ok body
  pub at_out : headers ++ body ≡ out

pub or_err-eq-ok {ℓ} :
    {A : Type ℓ} (o : Option A) (e : Error) (a : A) → or_err o e ≡ ok a → o ≡ some a
or_err-eq-ok none e a h = cc
or_err-eq-ok (some b) e a h = cc

length-read_at :
    (file : Bytes) (off n : ℕ) (bytes : Bytes) → read_at file off n ≡ ok bytes → length bytes ≡ n
unfolding read_at
length-read_at file off zero bytes h = ground (arith, h)
length-read_at file off (suc n) bytes h =
    ground (arith, h, length-take_le (suc n) (drop off file), length-drop off file)

pub write-Run :
    (input : Bytes) (l : Layout) (cmdlines : List Bytes) (out : Bytes)
    → write input l cmdlines ≡ ok out
    → Run input l cmdlines out
unfolding write
write-Run input l cmdlines out h =
    on_ok
      (guard (not (l.optional.file_alignment == 0 || l.optional.section_alignment == 0))
        bad_alignment)
      _ h
      λ _ _ h1. on_ok (new_data l.cmdlines cmdlines) _ h1 λ fresh hf h2.
        on_ok (first l) _ h2 λ n hn h3.
          on_ok (relayout _ _ fresh n l.sections) _ h3 λ updated hu h4.
            on_ok (last_section updated) _ h4 λ last _ h5.
              on_ok (or_err (get_elem? l.sections n) panic) _ h5 λ base hb h6.
                on_ok (read_at input 0 base.offset) _ h6 λ prefix hp h7.
                  on_ok (patch l n _ updated prefix) _ h7 λ headers hh h8.
                    on_ok (write_sections input fresh n (drop n l.sections) (drop n updated)) _ h8
                      λ body hy h9. record {
                        fresh = fresh;
                        n = n;
                        updated = updated;
                        base = base;
                        headers = headers;
                        body = body;
                        at_fresh = hf;
                        at_first = hn;
                        at_updated = hu;
                        at_base = or_err-eq-ok (get_elem? l.sections n) panic base hb;
                        at_headers =
                            length-patch l n _ updated prefix headers hh
                            ∙ length-read_at input 0 base.offset prefix hp;
                        at_body = hy;
                        at_out = ok-injective h9;
                      }

-- New contents change the sizes of a section only.
resize_moves_nothing :
    (fa : ℕ) (fresh : NewData) (i : ℕ) (s : SectionHeader)
    → ((resize fa fresh i s).virtual_address ≡ s.virtual_address)
      × ((resize fa fresh i s).offset ≡ s.offset)
resize_moves_nothing fa fresh i s = elim (Option-cases (find_data i fresh)) [
  | inl old ↦ rw (resize_old fresh i fa s old) (refl, refl)
  | inr (bytes, new) ↦ rw (resize_new fresh i fa s bytes new) (refl, refl)
]

-- The headers of the sections from the first .cmdline on.
module _ (fa sa n : ℕ) (fresh : NewData) (ss updated : List SectionHeader) (base : SectionHeader)
    (u : relayout fa sa fresh n ss ≡ ok updated) (b : get_elem? ss n ≡ some base) where
  resized_base : get_elem? (resize_from fa fresh 0 ss) n ≡ some (resize fa fresh n base)
  resized_base = get_elem?-resize_from fa fresh ss 0 n base b ∙ rw (zero-add n)

  relayout-eq :
      updated
      ≡ take n (resize_from fa fresh 0 ss)
        ++ place sa
            (resize fa fresh n base).virtual_address
            (resize fa fresh n base).offset
            (drop n (resize_from fa fresh 0 ss))
  unfolding relayout
  relayout-eq = sym (ok-injective (rw resized_base at u))

  pub relayout_tail :
      drop n updated
      ≡ place sa base.virtual_address base.offset (resize_from fa fresh n (drop n ss))
  relayout_tail =
      let long : length (take n (resize_from fa fresh 0 ss)) ≡ n =
        length-take_le n (resize_from fa fresh 0 ss)
          (omega (arith, lt-length_of_get (resize_from fa fresh 0 ss) n _ resized_base)) in
      ap (drop n) relayout-eq
      ∙ drop-append_of n (take n (resize_from fa fresh 0 ss)) _ long
      ∙ rw (
        drop-resize_from fa fresh ss 0 n,
        zero-add n,
        (resize_moves_nothing fa fresh n base).0,
        (resize_moves_nothing fa fresh n base).1,
      )
