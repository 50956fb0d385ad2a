-- ===== src/Install/Installed.antt =====
-- talos2disk/run.go: what an installation leaves on the disk.
use actions.Prelude.{
  ℕ, suc, ◌+◌, ◌≤◌, ◌≡◌, refl, sym, ap, ◌∙◌, subst, false, [], ◌++◌, append-nil, some, Error,
  Result, ok, err, Bool-cases, inl, inr, ◌⊎◌, length, drop, arith, cancelled,
}
use actions.Text.{Text, text_eq}
use actions.Uki.{Bytes}
use actions.Http.{Stream, Response, content}
use actions.Image.Retried.{retry_ends}
use actions.Image.Write.{Copied, ended_with, image_reader}
use actions.Image.Whole.{IsCopy, write_image_to_lem}
use actions.Meta.{Region, meta_locate, read_tag, write_tag}
use actions.Meta.ReadBack.{AdvLaws, read_tag-write_tag}
use actions.Install.{Inputs}
use actions.Install.Planned.{Deps, Plan}
use actions.Install.Run.{
  Step, put_tag, World, Trace, at_rest, take_step, put_network, put_args, execute, Decoders,
  prepare, carry_out, run,
}
use actions.Install.OnDisk.{
  Packages, metal_network_key, overlay, overlaid, attempt, attempts, retried, download, tagged_disk,
  disk_world,
}

-- The same plan without a network document.
abbrev pub without_document : Plan → Plan
without_document p = record p { network_doc = [] }

module _ {S : Type 0} (R : S → S → Type 0) where
  -- Where two ways to go on after a step end in related states, whenever the second succeeds, so do
  -- they with the step.
  take_step_both {ℓ} :
      {A : Type ℓ} (s : Step) (r : Result A × S) (next next' : A → S → Trace S)
      → ((a : A) (now : S)
          → (next' a now).result ≡ ok tt
          → R (next a now).state (next' a now).state)
      → (take_step s r next').result ≡ ok tt
      → R (take_step s r next).state (take_step s r next').state
  unfolding take_step
  take_step_both s (err e, now) next next' more h = cc
  take_step_both s (ok a, now) next next' more h = more a now h

module _ (pk : Packages) (in_ : Inputs) (p : Plan)
    (some_doc : text_eq p.network_doc [] ≡ false) where
  -- The second disk is what WriteTag makes of the first.
  abbrev IsTagged : Bytes → Bytes → Type 0
  IsTagged disk out = write_tag pk.adv pk.table_of disk metal_network_key p.network_doc ≡ ok out

  abbrev world : World Bytes
  world = disk_world pk in_

  last_tag :
      (disk : Bytes) (s : Step) (r : Result Bytes)
      → write_tag pk.adv pk.table_of disk metal_network_key p.network_doc ≡ r
      → (take_step s (tagged_disk pk disk r) (λ u. at_rest (ok tt))).result ≡ ok tt
      → IsTagged disk (take_step s (tagged_disk pk disk r) (λ u. at_rest (ok tt))).state
  unfolding take_step tagged_disk
  last_tag disk s (err e) w h = cc
  last_tag disk s (ok out) w h = w

  put_network-IsTagged :
      (disk : Bytes)
      → (put_network world in_ p disk).result ≡ ok tt
      → IsTagged
          (put_network world in_ (without_document p) disk).state
          (put_network world in_ p disk).state
  put_network-IsTagged disk =
      unfold put_network disk_world text_eq in
      rw some_doc (
        last_tag disk (put_tag p.disk.dev_path p.network_doc)
          (write_tag pk.adv pk.table_of disk metal_network_key p.network_doc) refl)

  put_args-IsTagged :
      (index : ℕ) (disk : Bytes)
      → (put_args world in_ p index disk).result ≡ ok tt
      → IsTagged
          (put_args world in_ (without_document p) index disk).state
          (put_args world in_ p index disk).state
  put_args-IsTagged index disk = elim (Bool-cases (text_eq p.kernel_args [])) [
    | inl e ↦ unfold put_args in rw e (put_network-IsTagged disk)
    | inr e ↦
        unfold put_args in
        rw e (
          take_step_both IsTagged _ _ _ _
            (λ node later. take_step_both IsTagged _ _ _ _ (λ u after. put_network-IsTagged after)))
  ]

  execute-IsTagged :
      (disk : Bytes)
      → (execute world in_ p disk).result ≡ ok tt
      → IsTagged
          (execute world in_ (without_document p) disk).state
          (execute world in_ p disk).state
  unfolding execute
  execute-IsTagged disk = take_step_both IsTagged _ _ _ _ (λ u imaged.
      take_step_both IsTagged _ _ _ _
        (λ index read. take_step_both IsTagged _ _ _ _ (λ v after. put_args-IsTagged index after)))

-- The packages together: under the laws of go-adv, an installation that succeeds, is no dry run and has
-- a network document for its plan leaves a disk on which ReadTag finds this document under the key of
-- the metal network configuration. The conditions are on this one disk: on what the steps without the
-- network document leave of it, META is found and lies in the disk, and the table is the same at the
-- end.
pub installed_network :
    (pk : Packages) (laws : AdvLaws pk.adv) (deps : Deps) (decode : Decoders) (disk : Bytes)
    (in_ : Inputs) (p : Plan) (q : Region)
    → let t = run deps decode (disk_world pk in_) disk in_ in
      let untagged = (execute (disk_world pk in_) in_ (without_document p) disk).state in
      prepare deps decode in_ ≡ ok p
      → in_.dry_run ≡ false
      → text_eq p.network_doc [] ≡ false
      → meta_locate (pk.table_of untagged) ≡ ok q
      → q.offset + q.size ≤ length untagged
      → pk.table_of t.state ≡ pk.table_of untagged
      → t.result ≡ ok tt
      → read_tag pk.adv pk.table_of t.state metal_network_key ≡ ok (some p.network_doc)
unfolding run carry_out
installed_network pk laws deps decode disk in_ p q made wet doc found inside same =
    let untagged = (execute (disk_world pk in_) in_ (without_document p) disk).state in
    let t = run deps decode (disk_world pk in_) disk in_ in
    let all_steps : t ≡ execute (disk_world pk in_) in_ p disk = rw (made, carry_out) (simp wet) in
    λ h.
      read_tag-write_tag pk.adv laws pk.table_of untagged metal_network_key p.network_doc t.state q
        found inside same
        (subst
          (λ z. write_tag pk.adv pk.table_of untagged metal_network_key p.network_doc ≡ ok z.state)
          (sym all_steps)
          (execute-IsTagged pk in_ p doc disk (ap (λ z. z.result) (sym all_steps) ∙ h)))

-- The start of a disk is the whole image that an answer at the URL holds.
abbrev pub StartsWithImage : Packages → Text → Bytes → Type 0
StartsWithImage pk url disk =
    (k : ℕ) × (res : Response) × (s : Stream) × (rest : Bytes) × ((pk.http k).get url ≡ some res)
    × (res.status ≡ 200)
    × (image_reader pk.zstd url res.body ≡ some s)
    × (s.fails ≡ false)
    × (disk ≡ content s.chunks ++ rest)

not_ok : (e : Error) → err e ≡ ok (tt {0}) → ⊥
not_ok e z = cc

overlay-StartsWithImage :
    (pk : Packages) (url : Text) (k : ℕ) (disk : Bytes) (c : Copied)
    → ((e : Error) × (c ≡ ended_with e)) ⊎ IsCopy pk.zstd url ((pk.http k).get url) c
    → c.result ≡ ok tt
    → StartsWithImage pk url (overlay c.on_device disk)
overlay-StartsWithImage pk url k disk c (inl (e, stopped)) h =
    absurd (not_ok e (sym (ap (λ z. z.result) stopped) ∙ h))
overlay-StartsWithImage pk url k disk c
      (inr (res, s, got, st, reader, (rest, split, count, inr (e, failed)))) h =
    absurd (not_ok e (sym failed ∙ h))
overlay-StartsWithImage pk url k disk c
      (inr (res, s, got, st, reader, (rest, split, count, inl (none_left, whole, done)))) h =
    (
      k,
      res,
      s,
      drop (length c.on_device) disk,
      got,
      st,
      reader,
      whole,
      ap (λ z. z ++ drop (length c.on_device) disk)
          (sym (split ∙ ap (λ z. c.on_device ++ z) none_left ∙ append-nil c.on_device)),
    )

-- Where an attempt to write the image has succeeded in the end, the disk starts with the whole of the
-- image that the answer of this attempt held, decoded where the URL ends in .zst, whatever the attempts
-- before have written.
pub download_lem :
    (pk : Packages) (window : ℕ) (disk : Bytes) (url dev : Text)
    → (download pk window disk url dev).0 ≡ ok tt
    → StartsWithImage pk url (download pk window disk url dev).1
unfolding download
download_lem pk window disk url dev =
    let (e, ended, (k, count, how)) = retry_ends pk.start window (attempts pk url dev) in
    rw (ended, retried)
      (elim how [
        | inr (cancelled_, _) ↦ λ h. absurd (not_ok cancelled (sym cancelled_ ∙ h))
        | inl last ↦ λ h.
            let same : suc k ≡ e.attempts = omega (arith, count) in
            subst (λ n. StartsWithImage pk url (overlaid (attempt pk url dev) n disk)) same
              (last_attempt k (sym last ∙ h))
      ])
  where
    last_attempt :
        (k : ℕ)
        → (attempt pk url dev k).result ≡ ok tt
        → StartsWithImage pk url (overlaid (attempt pk url dev) (suc k) disk)
    last_attempt k h =
        unfold overlaid in
        overlay-StartsWithImage pk url k (overlaid (attempt pk url dev) k disk)
          (attempt pk url dev k)
          (unfold attempt in write_image_to_lem (pk.http k) pk.zstd (pk.target k) url dev) h
