-- ===== src/Meta/Spliced.antt =====
-- pkg/meta/meta.go: the bytes of a region around writeAt.
use actions.Prelude.{
  ℕ, ◌+◌, ◌-◌, ◌≤◌, ◌≡◌, refl, sym, ap, ◌∙◌, ◌++◌, append_assoc, ok, true, arith, length,
  length-append, take, drop, take-append_of, drop-append_of, length-take_le, length-drop, leb,
  take-drop,
}
use actions.Uki.{Bytes}
use actions.Meta.{write_at, section, Region}

pub overwrite :
    (xs old ys new : Bytes) (n : ℕ)
    → length xs ≡ n
    → length old ≡ length new
    → write_at n new (xs ++ (old ++ ys)) ≡ ok (xs ++ (new ++ ys))
unfolding write_at
overwrite xs old ys new n a b =
    let whole : length (xs ++ (old ++ ys)) ≡ n + (length new + length ys) =
      omega (arith, length-append xs (old ++ ys), length-append old ys, a, b) in
    let fits : leb (n + length new) (length (xs ++ (old ++ ys))) ≡ true = ground (arith, whole) in
    let before : take n (xs ++ (old ++ ys)) ≡ xs = take-append_of n xs (old ++ ys) a in
    let after : drop (n + length new) (xs ++ (old ++ ys)) ≡ ys =
      ap (drop (n + length new)) (sym (append_assoc xs old ys))
      ∙ drop-append_of (n + length new) (xs ++ old) ys
          (omega (arith, length-append xs old, a, b)) in
    rw (fits, before, after) refl

-- A file of which the region has a head and a tail of these sizes.
pub record Parts (file : Bytes) (p : Region) (head tail : ℕ) : Type 0 where
  pub before : Bytes
  pub first : Bytes
  pub middle : Bytes
  pub last : Bytes
  pub after : Bytes
  pub whole : file ≡ before ++ (first ++ (middle ++ (last ++ after)))
  pub length_before : length before ≡ p.offset
  pub length_first : length first ≡ head
  pub length_last : length last ≡ tail
  pub length_middle : head + length middle + tail ≡ p.size

pub Parts-of :
    (file : Bytes) (p : Region) (head tail : ℕ)
    → head + tail ≤ p.size
    → p.offset + p.size ≤ length file
    → Parts file p head tail
Parts-of file p head tail fits inside =
    let r1 = drop p.offset file in
    let r2 = drop head r1 in
    let m = p.size - head - tail in
    let r3 = drop m r2 in
    let l1 : length r1 ≡ length file - p.offset = length-drop p.offset file in
    let l2 : length r2 ≡ length r1 - head = length-drop head r1 in
    let l3 : length r3 ≡ length r2 - m = length-drop m r2 in
    record {
      before = take p.offset file;
      first = take head r1;
      middle = take m r2;
      last = take tail r3;
      after = drop tail r3;
      whole = sym (
          ap (λ z. take p.offset file ++ (take head r1 ++ (take m r2 ++ z))) (take-drop tail r3)
          ∙ ap (λ z. take p.offset file ++ (take head r1 ++ z)) (take-drop m r2)
          ∙ ap (λ z. take p.offset file ++ z) (take-drop head r1)
          ∙ take-drop p.offset file);
      length_before = length-take_le p.offset file (omega arith);
      length_first = length-take_le head r1 (omega (arith, l1));
      length_last = length-take_le tail r3 (omega (arith, l1, l2, l3));
      length_middle = omega (arith, length-take_le m r2 (omega (arith, l1, l2)));
    }

-- The region of a file that is put together so.
pub section-parts :
    (p : Region) (before first middle last after : Bytes)
    → length before ≡ p.offset
    → length first + length middle + length last ≡ p.size
    → section p (before ++ (first ++ (middle ++ (last ++ after)))) ≡ first ++ (middle ++ last)
section-parts p before first middle last after a b =
    let joined : first ++ (middle ++ (last ++ after)) ≡ (first ++ (middle ++ last)) ++ after =
      ap (λ z. first ++ z) (sym (append_assoc middle last after))
      ∙ sym (append_assoc first (middle ++ last) after) in
    ap (take p.size) (drop-append_of p.offset before _ a ∙ joined)
    ∙ take-append_of p.size (first ++ (middle ++ last)) after
        (omega (arith, b, length-append first (middle ++ last), length-append middle last))
