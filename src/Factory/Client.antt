-- ===== src/Factory/Client.antt =====
-- pkg/factory/client.go: NewClient, Versions and the requests. url.Parse and json.Unmarshal are
-- parameters, none where they return an error; a nil client is http.DefaultClient, a transport too.
use actions.Prelude.{
  ℕ, ◌^◌, Bool, not, ◌&&◌, ◌||◌, List, [], ◌++◌, Option, Result, ok, ◌>>=◌, ◌>>◌, guard, or_err,
  leb, ◌==◌, bad_factory_url, bad_url, download_failed, read_failed, bad_status, bad_json,
}
use actions.Text.{Text, codes, text_eq, trim_space, trim_right}
use actions.Uki.{Bytes}
use actions.Http.{Transport, read_limited}

-- url.URL: its scheme, its host, and String.
pub record ParsedUrl : Type 0 where
  pub scheme : Text
  pub host : Text
  pub text : Text

-- maxBody
abbrev pub max_body : ℕ
max_body = 2 ^ 20

-- What NewClient accepts.
abbrev pub is_http_url : ParsedUrl → Bool
is_http_url u =
    (text_eq u.scheme (codes "http") || text_eq u.scheme (codes "https")) && not (text_eq u.host [])

-- NewClient: the base URL.
unfoldable pub new_client : (Text → Option ParsedUrl) → Text → Result Text
unfolding trim_right
new_client parse_url base = do
  u ← or_err (parse_url (trim_space base)) bad_factory_url
  guard (is_http_url u) bad_factory_url
  ok (trim_right (λ c. c == b'/') u.text)

-- Client.do on a GET request.
unfoldable pub do_request : Transport → Text → Result Bytes
unfolding read_limited
do_request http url = do
  res ← or_err (http.get url) download_failed
  raw ← or_err (read_limited max_body res.body) read_failed
  guard (leb 200 res.status && leb res.status 299) bad_status
  ok raw

-- Client.Versions
unfoldable pub client_versions :
    Transport → (Bytes → Option (List Text)) → Text → Result (List Text)
unfolding do_request
client_versions http decode base = do
  guard (http.accepts_url (base ++ codes "/versions")) bad_url
  raw ← do_request http (base ++ codes "/versions")
  or_err (decode raw) bad_json
