-- ===== src/Image/Tests.antt =====
-- Attempts of which the third succeeds, units, and images that are written to small devices.
use actions.Prelude.{
  ℕ, List, [], ◌∷◌, Error, short_write, image_not_found, ◌-◌, ◌<◌, arith, ◌+◌, ◌/◌, ◌≡◌, ◌⊎◌, refl,
  true, false, some, ok, err, cancelled, no_such_file, ltb, if◌then◌else◌,
}
use actions.Text.{codes, text_eq}
use actions.Uki.{Bytes}
use actions.Http.{Transport}
use actions.Image.Write.{Target, write_image_to, ended_with}
use actions.Image.Whole.{IsCopy, write_image_to_lem}
use actions.Image.{Attempts, Ended, retry, retry_from, after_attempt, unit_of, pretty_unit}
use actions.Image.Units.{pretty_unit_lt}
use actions.Image.Retried.{retry_ends}

abbrev third : Attempts
third = record {
  outcome = λ k. if ltb k 2 then err no_such_file else ok tt;
  duration = λ k. 5;
  done = λ k. false;
}

third_runs :
    retry_from 9000000000 9000000000 third 9 0 1000000000 0
    ≡ some (record { result = ok tt; attempts = 3 })
unfolding retry_from after_attempt
third_runs = refl

unit_runs : unit_of 5 (3000000 / 1024) 1024 0 ≡ (1048576, 1)
unfolding unit_of
unit_runs = refl

retry_ends_example :
    (e : Ended) × (retry 0 9000000000 third ≡ some e)
    × ((k : ℕ) × (e.attempts ≡ k + 1)
        × ((e.result ≡ third.outcome k) ⊎ ((e.result ≡ err cancelled) × (third.done k ≡ true))))
retry_ends_example = retry_ends 0 9000000000 third

pretty_runs : pretty_unit 9223372036854775807 ≡ some (1152921504606846976, 5)
unfolding pretty_unit unit_of
pretty_runs = refl

pretty_unit_lt_example : 5 < 6
pretty_unit_lt_example =
    pretty_unit_lt 9223372036854775807 1152921504606846976 5 (omega arith) pretty_runs

abbrev chunks : List Bytes
chunks = (1 ∷ 2 ∷ []) ∷ (3 ∷ []) ∷ (4 ∷ 5 ∷ []) ∷ []

abbrev server : Transport
server = record {
  accepts_url = λ url. true;
  get = λ url.
      if text_eq url (codes "http://f/a.raw.zst")
      then some (record { status = 200; body = record { chunks = chunks; fails = false } })
      else some (record { status = 404; body = record { chunks = []; fails = false } });
}

-- A device of so many bytes.
abbrev device_of : ℕ → Target
device_of size = record {
  opens = λ device. true;
  takes = λ offset bytes. size - offset;
  syncs = true;
}

write_runs :
    write_image_to server some (device_of 9) (codes "http://f/a.raw.zst") (codes "/dev/sda")
    ≡ record { on_device = 1 ∷ 2 ∷ 3 ∷ 4 ∷ 5 ∷ []; written = 5; result = ok tt }
unfolding write_image_to text_eq
write_runs = refl

full_runs :
    write_image_to server some (device_of 4) (codes "http://f/a.raw.zst") (codes "/dev/sda")
    ≡ record { on_device = 1 ∷ 2 ∷ 3 ∷ 4 ∷ []; written = 4; result = err short_write }
unfolding write_image_to text_eq
full_runs = refl

missing_runs :
    write_image_to server some (device_of 4) (codes "http://f/b.raw.zst") (codes "/dev/sda")
    ≡ ended_with image_not_found
unfolding write_image_to text_eq
missing_runs = refl

write_image_to_lem_example :
    let url = codes "http://f/a.raw.zst" in
    let c = write_image_to server some (device_of 9) url (codes "/dev/sda") in
    ((e : Error) × (c ≡ ended_with e)) ⊎ IsCopy some url (server.get url) c
write_image_to_lem_example =
    write_image_to_lem server some (device_of 9) (codes "http://f/a.raw.zst") (codes "/dev/sda")
