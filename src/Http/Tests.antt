-- ===== src/Http/Tests.antt =====
-- A factory and a metadata service that answer.
use actions.Prelude.{
  ◌≡◌, refl, ◌^◌, ◌≤◌, true, false, List, [], ◌∷◌, ◌++◌, Option, some, ok, err, bad_status,
  if◌then◌else◌,
}
use actions.Text.{Text, codes, text_eq, trim_space}
use actions.Uki.{Bytes}
use actions.Http.{Transport, Response, read_limited}
use actions.Http.Answered.{IsAnswer, client_versions_lem}
use actions.Factory.Client.{ParsedUrl, new_client, client_versions}

abbrev listing : Response
listing = record {
  status = 200;
  body = record { chunks = codes "v1.14." ∷ codes "2" ∷ []; fails = false };
}

abbrev factory : Transport
factory = record {
  accepts_url = λ url. true;
  get = λ url.
      if text_eq url (codes "https://f/versions")
      then some listing
      else some (record { status = 500; body = record { chunks = []; fails = false } });
}

-- One version in plain text.
abbrev decode_one : Bytes → Option (List Text)
decode_one raw = some (raw ∷ [])

-- A parser that knows one scheme and host.
abbrev parse_url : Text → Option ParsedUrl
parse_url text = some (record { scheme = codes "https"; host = codes "f"; text = text })

client_runs : new_client parse_url (codes " https://f// ") ≡ ok (codes "https://f")
unfolding new_client text_eq trim_space
client_runs = refl

versions_run : client_versions factory decode_one (codes "https://f") ≡ ok (codes "v1.14.2" ∷ [])
unfolding client_versions text_eq
versions_run = refl

refused_runs : client_versions factory decode_one (codes "https://g") ≡ err bad_status
unfolding client_versions text_eq
refused_runs = refl

cut_runs :
    read_limited 3 (record { chunks = codes "ab" ∷ codes "cd" ∷ []; fails = true })
    ≡ some (codes "abc")
unfolding read_limited
cut_runs = refl

client_versions_lem_example :
    (res : Response) × (raw : Bytes) × IsAnswer factory
      (codes "https://f" ++ codes "/versions")
      (2 ^ 20)
      res
      raw
    × (200 ≤ res.status)
    × (res.status ≤ 299)
    × (decode_one raw ≡ some (codes "v1.14.2" ∷ []))
client_versions_lem_example =
    client_versions_lem factory decode_one (codes "https://f") (codes "v1.14.2" ∷ []) versions_run
