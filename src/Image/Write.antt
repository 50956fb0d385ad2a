-- ===== src/Image/Write.antt =====
-- pkg/image/image.go: Write, less its logging. The decoder zstd.NewReader and the transport are
-- parameters. A device takes bytes from its start on.
use actions.Prelude.{
  ℕ, ◌+◌, ◌-◌, Bool, true, false, not, ◌&&◌, List, [], ◌∷◌, ◌++◌, Option, none, some, Error, Result,
  ok, err, length, take, drop, leb, ltb, ◌==◌, bad_url, download_failed, image_not_found,
  bad_status, open_failed, bad_zstd, read_failed, short_write, sync_failed, if◌then◌else◌,
}
use actions.Text.{Text, codes, text_eq}
use actions.Uki.{Bytes}
use actions.Http.{Stream, Response, Transport}

-- Opening the device, how many bytes of a write at an offset it takes, and whether it can be synced.
pub record Target : Type 0 where
  pub opens : Text → Bool
  pub takes : ℕ → Bytes → ℕ
  pub syncs : Bool

-- strings.HasSuffix
abbrev pub has_suffix : Text → Text → Bool
has_suffix s t = leb (length t) (length s) && text_eq (drop (length s - length t) s) t

-- What is on the device, how many bytes the counter has counted, and how io.Copy ended.
pub record Copied : Type 0 where
  pub on_device : Bytes
  pub written : ℕ
  pub result : Result (Unit {0})

abbrev at_end : Bool → Result (Unit {0})
at_end true = err read_failed
at_end false = ok tt

-- io.Copy through the counter: a write that takes fewer bytes ends it.
unfoldable pub copy : Target → List Bytes → Bool → Bytes → ℕ → Copied
copy target [] fails done n = record { on_device = done; written = n; result = at_end fails }
copy target (c ∷ chunks) fails done n =
    let rest = copy target chunks fails (done ++ c) (n + length c) in
    let taken = take (target.takes (length done) c) c in
    if ltb (target.takes (length done) c) (length c)
    then record { on_device = done ++ taken; written = n + length taken; result = err short_write }
    else rest

-- How Write ended.
abbrev pub ended_with : Error → Copied
ended_with e = record { on_device = []; written = 0; result = err e }

-- out.Sync; the partition table is re-read where that can be done.
unfoldable pub sync_copied : Target → Copied → Result (Unit {0}) → Copied
sync_copied target c (err e) = c
sync_copied target c (ok u) = if target.syncs then c else record c { result = err sync_failed }

-- The copy from a reader that may not have started.
unfoldable pub copy_from : Target → Option Stream → Copied
unfolding copy sync_copied
copy_from target none = ended_with bad_zstd
copy_from target (some s) =
    let copied = copy target s.chunks s.fails [] 0 in sync_copied target copied copied.result

-- The reader of the image.
unfoldable pub image_reader : (Stream → Option Stream) → Text → Stream → Option Stream
image_reader zstd url body = if has_suffix url (codes ".zst") then zstd body else some body

-- What follows an answer.
unfoldable pub write_answer :
    (Stream → Option Stream) → Target → Text → Text → Option Response → Copied
unfolding copy_from image_reader
write_answer zstd target url device none = ended_with download_failed
write_answer zstd target url device (some res) =
    if res.status == 404
    then ended_with image_not_found
    else if not (res.status == 200)
    then ended_with bad_status
    else if not (target.opens device)
    then ended_with open_failed
    else copy_from target (image_reader zstd url res.body)

-- Write
unfoldable pub write_image_to : Transport → (Stream → Option Stream) → Target → Text → Text → Copied
unfolding write_answer
write_image_to http zstd target url device =
    if not (http.accepts_url url)
    then ended_with bad_url
    else write_answer zstd target url device (http.get url)
