-- ===== src/Meta/Tests.antt =====
-- A META partition with the ADVs of Meta/Sample.
use actions.Prelude.{◌≡◌, refl, arith, [], ◌∷◌, Option, some, ok}
use actions.Text.{codes, text_eq}
use actions.Uki.{Bytes}
use actions.Partition.{Table, gpt, find_label, locate}
use actions.Meta.{meta_locate, read_tag, write_tag, flush_adv, load, write_at, read_either}
use actions.Meta.ReadBack.{read_tag-write_tag}
use actions.Meta.Kept.{SameOutside, write_tag_keeps}
use actions.Meta.Sample.{pair_lib, pair_laws, pair_sets_one}

abbrev meta_table : Bytes → Option Table
meta_table file =
    some (gpt 1 (some (record { index = 1; start = 2; last = 6; name = codes "META" }) ∷ []) 512)

abbrev blank : Bytes
blank = 9 ∷ 9 ∷ 0 ∷ 5 ∷ 0 ∷ 0 ∷ 0 ∷ 8 ∷ []

abbrev tagged : Bytes
tagged = 9 ∷ 9 ∷ 77 ∷ 5 ∷ 0 ∷ 0 ∷ 0 ∷ 8 ∷ []

found : meta_locate (meta_table blank) ≡ ok (record { offset = 2; size = 5 })
unfolding meta_locate locate find_label text_eq
found = refl

writes : write_tag pair_lib meta_table blank 10 (77 ∷ []) ≡ ok tagged
unfolding write_tag meta_locate locate find_label text_eq load flush_adv write_at
writes = refl

read_tag-write_tag_example : read_tag pair_lib meta_table tagged 10 ≡ ok (some (77 ∷ []))
read_tag-write_tag_example =
    read_tag-write_tag pair_lib pair_laws meta_table blank 10 (77 ∷ []) tagged
      (record { offset = 2; size = 5 }) found (omega arith) refl writes

write_tag_keeps_example :
    SameOutside (record { offset = 2; size = 5 }) blank tagged
    × (read_tag pair_lib meta_table tagged 11 ≡ read_tag pair_lib meta_table blank 11)
write_tag_keeps_example =
    write_tag_keeps pair_lib pair_laws pair_sets_one meta_table blank 10 (77 ∷ []) tagged
      (record { offset = 2; size = 5 }) found (omega arith) refl writes 11 (omega arith)

other_runs : read_tag pair_lib meta_table tagged 11 ≡ ok (some (5 ∷ []))
unfolding read_tag meta_locate locate find_label text_eq load read_either
other_runs = refl
