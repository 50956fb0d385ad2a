-- ===== src/Http/Answered.antt =====
-- What a limited read gives, and what the clients pkg/factory and pkg/hardware accept.
use actions.Prelude.{
  ℕ, zero, suc, ◌^◌, ◌≤◌, ◌<◌, ◌≡◌, refl, sym, ap, subst, true, false, ◌&&◌, List, [], ◌∷◌, ◌++◌,
  Option, some, ok, or_err, guard, on_ok, ok-injective, or_err-ok, guard-ok, length, take, drop,
  take-drop, length-take_le, leb, ltb, ◌==◌, Bool-cases, inl, inr, ◌⊎◌, arith, bad_url,
  download_failed, read_failed, bad_status, bad_json,
}
use actions.Text.{Text, codes}
use actions.Uki.{Bytes}
use actions.Http.{Stream, Response, Transport, content, read_limited}
use actions.Factory.Client.{max_body, do_request, client_versions}
use actions.Hardware.{Spec}
use actions.Hardware.Fetch.{max_metadata, metadata_url, fetch_spec}

-- A body that was read: the start of the answer, within the limit, and all of an answer that ended well
-- where it is shorter.
abbrev pub IsBody : ℕ → Stream → Bytes → Type 0
IsBody limit s raw =
    (length raw ≤ limit)
    × ((rest : Bytes) × (content s.chunks ≡ raw ++ rest)
        × (((rest ≡ []) × (s.fails ≡ false)) ⊎ (length raw ≡ limit)))

short_take : (n : ℕ) (xs : Bytes) → length xs < n → (take n xs ≡ xs) × (drop n xs ≡ [])
short_take zero xs h = absurd (omega arith)
short_take (suc n) [] h = (refl, refl)
short_take (suc n) (x ∷ xs) h =
    let (taken, dropped) = short_take n xs (omega arith) in (ap (◌∷◌ x) taken, dropped)

-- The first bytes of a body, whole or cut at the limit.
taken-IsBody :
    (limit : ℕ) (s : Stream)
    → (s.fails && ltb (length (content s.chunks)) limit) ≡ false
    → IsBody limit s (take limit (content s.chunks))
taken-IsBody limit s h = elim (Bool-cases (ltb (length (content s.chunks)) limit)) [
  | inl t ↦
      let (taken, dropped) = short_take limit (content s.chunks) (ground arith) in
      (
        omega (arith, ap length taken, below (length (content s.chunks)) limit t),
        (
          drop limit (content s.chunks),
          sym (take-drop limit (content s.chunks)),
          inl (dropped, ground arith),
        ),
      )
  | inr t ↦
      let full = length-take_le limit (content s.chunks) (ground arith) in
      (
        omega (arith, full),
        (drop limit (content s.chunks), sym (take-drop limit (content s.chunks)), inr full),
      )
]
  where
    below : (m n : ℕ) → ltb m n ≡ true → m < n
    below m n h = ground arith

pub read_limited-IsBody :
    (limit : ℕ) (s : Stream) (raw : Bytes) → read_limited limit s ≡ some raw → IsBody limit s raw
unfolding read_limited
read_limited-IsBody limit s raw =
    elim (Bool-cases (s.fails && ltb (length (content s.chunks)) limit)) [
      | inl e ↦ rw e (λ h. cc)
      | inr e ↦ rw e (λ h. subst (IsBody limit s) (same h) (taken-IsBody limit s e))
    ]
  where
    same : {a b : Bytes} → some a ≡ some b → a ≡ b
    same h = cc

-- An answer at the URL, with its status and the body that was read of it.
abbrev pub IsAnswer : Transport → Text → ℕ → Response → Bytes → Type 0
IsAnswer http url limit res raw = (http.get url ≡ some res) × IsBody limit res.body raw

do_request_lem :
    (http : Transport) (url : Text) (raw : Bytes)
    → do_request http url ≡ ok raw
    → (res : Response) × IsAnswer http url max_body res raw
      × (200 ≤ res.status)
      × (res.status ≤ 299)
unfolding do_request
do_request_lem http url raw h = on_ok (or_err (http.get url) download_failed) _ h (λ res got h1.
    on_ok (or_err (read_limited max_body res.body) read_failed) _ h1 (λ body read h2.
      on_ok (guard (leb 200 res.status && leb res.status 299) bad_status) _ h2 (λ u good h3.
        let (low, high) = from_test res.status (guard-ok _ bad_status u good) in
        (
          res,
          (
            or_err-ok _ download_failed res got,
            subst (IsBody max_body res.body) (ok-injective h3)
                (read_limited-IsBody max_body res.body body (or_err-ok _ read_failed body read)),
          ),
          low,
          high,
        ))))
  where
    from_test : (n : ℕ) → (leb 200 n && leb n 299) ≡ true → (200 ≤ n) × (n ≤ 299)
    from_test n h = (ground arith, ground arith)

-- Versions returns what the decoder reads in the body of an answer between 200 and 299 of the factory:
-- at most 1 MiB of it, and all of it where it is shorter, which then has ended without an error.
pub client_versions_lem :
    (http : Transport) (decode : Bytes → Option (List Text)) (base : Text) (versions : List Text)
    → client_versions http decode base ≡ ok versions
    → (res : Response) × (raw : Bytes) × IsAnswer http (base ++ codes "/versions") (2 ^ 20) res raw
      × (200 ≤ res.status)
      × (res.status ≤ 299)
      × (decode raw ≡ some versions)
unfolding client_versions
client_versions_lem http decode base versions h =
    on_ok (guard (http.accepts_url (base ++ codes "/versions")) bad_url) _ h (λ u good h1.
      on_ok (do_request http (base ++ codes "/versions")) _ h1 (λ raw got h2.
        let (res, answer, low, high) = do_request_lem http (base ++ codes "/versions") raw got in
        (res, raw, answer, low, high, or_err-ok _ bad_json versions h2)))

-- Fetch, likewise, with a status of 200 and at most 8 MiB.
fetch_spec_lem :
    (http : Transport) (decode : Bytes → Option Spec) (base : Text) (spec : Spec)
    → fetch_spec http decode base ≡ ok spec
    → (res : Response) × (raw : Bytes) × IsAnswer http (metadata_url base) max_metadata res raw
      × (res.status ≡ 200)
      × (decode raw ≡ some spec)
unfolding fetch_spec
fetch_spec_lem http decode base spec h =
    on_ok (guard (http.accepts_url (metadata_url base)) bad_url) _ h (λ u good h1.
      on_ok (or_err (http.get (metadata_url base)) download_failed) _ h1 (λ res got h2.
        on_ok (or_err (read_limited max_metadata res.body) read_failed) _ h2 (λ raw read h3.
          on_ok (guard (res.status == 200) bad_status) _ h3 (λ v st h4. (
            res,
            raw,
            (
              or_err-ok _ download_failed res got,
              read_limited-IsBody max_metadata res.body raw (or_err-ok _ read_failed raw read),
            ),
            is_200 res.status (guard-ok _ bad_status v st),
            or_err-ok _ bad_json spec h4,
          )))))
  where
    is_200 : (n : ℕ) → (n == 200) ≡ true → n ≡ 200
    is_200 n h = ground arith
