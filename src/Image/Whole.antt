-- ===== src/Image/Whole.antt =====
-- pkg/image/image.go: what Write leaves on the device.
use actions.Prelude.{
  ℕ, ◌+◌, ◌≡◌, refl, sym, ap, ◌∙◌, subst, Bool, true, false, List, [], ◌∷◌, ◌++◌, append_assoc,
  Option, none, some, Error, Result, ok, err, length, length-append, take, drop, take-drop, ltb,
  ◌==◌, Bool-cases, inl, inr, ◌⊎◌, arith,
}
use actions.Text.{Text}
use actions.Uki.{Bytes}
use actions.Http.{Stream, Response, Transport, content}
use actions.Image.Write.{
  Target, Copied, copy, ended_with, sync_copied, copy_from, image_reader, write_answer,
  write_image_to,
}

-- What is on the device is the start of the image, as long as the counter says, and all of it where
-- the copy ended well, which it does only where the reader did.
abbrev pub IsPart : Bytes → Bool → Copied → Type 0
IsPart image fails c =
    (rest : Bytes) × (image ≡ c.on_device ++ rest)
    × (c.written ≡ length c.on_device)
    × (((rest ≡ []) × (fails ≡ false) × (c.result ≡ ok tt)) ⊎ ((e : Error) × (c.result ≡ err e)))

copy-IsPart :
    (target : Target) (chunks : List Bytes) (fails : Bool) (done : Bytes) (n : ℕ)
    → n ≡ length done
    → IsPart (done ++ content chunks) fails (copy target chunks fails done n)
unfolding copy content
copy-IsPart target [] true done n h = ([], refl, h, inr (_, refl))
copy-IsPart target [] false done n h = ([], refl, h, inl (refl, refl, refl))
copy-IsPart target (c ∷ chunks) fails done n h =
    let k = target.takes (length done) c in
    elim (Bool-cases (ltb k (length c))) [
      | inl e ↦ rw e (
        drop k c ++ content chunks,
        ap (λ z. done ++ z)
              (ap (λ z. z ++ content chunks) (sym (take-drop k c))
                ∙ append_assoc (take k c) (drop k c) (content chunks))
            ∙ sym (append_assoc done (take k c) (drop k c ++ content chunks)),
        omega (arith, h, length-append done (take k c)),
        inr (_, refl),
      )
      | inr e ↦ rw e (
          subst (λ z. IsPart z fails (copy target chunks fails (done ++ c) (n + length c)))
            (append_assoc done c (content chunks))
            (copy-IsPart target chunks fails (done ++ c) (n + length c)
              (omega (arith, h, length-append done c))))
    ]

sync_copied-IsPart :
    (target : Target) (image : Bytes) (fails : Bool) (c : Copied) (r : Result (Unit {0}))
    → c.result ≡ r
    → IsPart image fails c
    → IsPart image fails (sync_copied target c r)
unfolding sync_copied
sync_copied-IsPart target image fails c (err e) h part = part
sync_copied-IsPart target image fails c (ok u) h part = elim (Bool-cases target.syncs) [
  | inl t ↦ simp t part
  | inr t ↦ let (rest, split, count, ended) = part in simp t (rest, split, count, inr (_, refl))
]

-- The reader that Write copies from, and that it copies from it.
abbrev pub IsCopy : (Stream → Option Stream) → Text → Option Response → Copied → Type 0
IsCopy zstd url answer c =
    (res : Response) × (s : Stream) × (answer ≡ some res)
    × (res.status ≡ 200)
    × (image_reader zstd url res.body ≡ some s)
    × IsPart (content s.chunks) s.fails c

copy_from-IsCopy :
    (zstd : Stream → Option Stream) (target : Target) (url : Text) (res : Response)
    (reader : Option Stream)
    → image_reader zstd url res.body ≡ reader
    → res.status ≡ 200
    → ((e : Error) × (copy_from target reader ≡ ended_with e))
      ⊎ IsCopy zstd url (some res) (copy_from target reader)
unfolding copy_from
copy_from-IsCopy zstd target url res none h st = inl (_, refl)
copy_from-IsCopy zstd target url res (some s) h st = inr (
  res,
  s,
  refl,
  st,
  h,
  sync_copied-IsPart target (content s.chunks) s.fails (copy target s.chunks s.fails [] 0) _ refl
      (copy-IsPart target s.chunks s.fails [] 0 refl),
)

write_answer-IsCopy :
    (zstd : Stream → Option Stream) (target : Target) (url device : Text) (answer : Option Response)
    → ((e : Error) × (write_answer zstd target url device answer ≡ ended_with e))
      ⊎ IsCopy zstd url answer (write_answer zstd target url device answer)
unfolding write_answer
write_answer-IsCopy zstd target url device none = inl (_, refl)
write_answer-IsCopy zstd target url device (some res) = elim (Bool-cases (res.status == 404)) [
  | inl n ↦ rw n (inl (_, refl))
  | inr n ↦ elim (Bool-cases (res.status == 200)) [
    | inr t ↦ rw (n, t) (inl (_, refl))
    | inl t ↦ elim (Bool-cases (target.opens device)) [
      | inr o ↦ rw (n, t) (simp o (inl (_, refl)))
      | inl o ↦
          rw (n, t)
            (simp o (
              copy_from-IsCopy zstd target url res (image_reader zstd url res.body) refl
                (ground arith)))
    ]
  ]
]

-- Write stops with an error before it has written a byte, or the answer was 200 and what is on the
-- device is the start of the image, decoded where the URL ends in .zst, and as long as the number that
-- is returned. Where Write succeeds, the reader had ended without an error and it is the whole image.
pub write_image_to_lem :
    (http : Transport) (zstd : Stream → Option Stream) (target : Target) (url device : Text)
    → let c = write_image_to http zstd target url device in
      ((e : Error) × (c ≡ ended_with e)) ⊎ IsCopy zstd url (http.get url) c
unfolding write_image_to
write_image_to_lem http zstd target url device = elim (Bool-cases (http.accepts_url url)) [
  | inr e ↦ simp e (inl (_, refl))
  | inl e ↦ simp e (write_answer-IsCopy zstd target url device (http.get url))
]
