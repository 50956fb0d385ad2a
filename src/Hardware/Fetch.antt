-- ===== src/Hardware/Fetch.antt =====
-- pkg/hardware: Parse, and Fetch from the metadata service. json.Unmarshal is a parameter, none where
-- it returns an error; a transport stands for the client with the headers of the request.
use actions.Prelude.{
  ℕ, ◌*◌, ◌^◌, not, [], ◌++◌, Option, Result, ◌>>=◌, ◌>>◌, guard, or_err, ◌==◌, bad_url,
  download_failed, read_failed, bad_status, bad_json, empty_document,
}
use actions.Text.{Text, codes, text_eq, trim_space, trim_right}
use actions.Uki.{Bytes}
use actions.Hardware.{Hardware, Spec}
use actions.Http.{Transport, read_limited}

-- Parse
unfoldable pub parse_hardware : (Text → Option Hardware) → Text → Result Hardware
parse_hardware decode raw = do
  guard (not (text_eq (trim_space raw) [])) empty_document
  or_err (decode raw) bad_json

-- maxBody
abbrev pub max_metadata : ℕ
max_metadata = 8 * 2 ^ 20

-- The URL that Fetch asks.
unfoldable pub metadata_url : Text → Text
unfolding trim_right
metadata_url base = trim_right (λ c. c == b'/') base ++ codes "/metadata"

-- Fetch
unfoldable pub fetch_spec : Transport → (Bytes → Option Spec) → Text → Result Spec
unfolding metadata_url
fetch_spec http decode base = do
  guard (http.accepts_url (metadata_url base)) bad_url
  res ← or_err (http.get (metadata_url base)) download_failed
  body ← or_err (read_limited max_metadata res.body) read_failed
  guard (res.status == 200) bad_status
  or_err (decode body) bad_json
