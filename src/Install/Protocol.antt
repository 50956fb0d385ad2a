-- ===== src/Install/Protocol.antt =====
-- talos2disk/run.go: an installation as a protocol. Its phases are what has been done to the machine so
-- far; a try is a step that the protocol allows in a phase, and how it ends.
use actions.Prelude.{
  ◌≡◌, refl, true, false, List, [], ◌∷◌, Result, ok, err, Error, Bool-cases, inl, inr, ◌⊎◌, ℕ,
}
use actions.Text.{Text, text_eq}
use actions.Install.{Inputs}
use actions.Install.Planned.{Deps, Plan}
use actions.Install.Run.{
  Step, write_image, locate_efi, locate_meta, ensure_node, apply_args, put_tag, World, Trace,
  at_rest, take_step, put_network, put_args, execute, Decoders, prepare, carry_out, run,
}

pub data Phase : Type 0 where
  fresh imaged : Phase
  located checked : ℕ → Phase
  prepared : Text → Phase
  edited tagged : Phase

-- The phase that a success leads to, and the state after it.
abbrev pub lead {ℓ} : {A : Type ℓ} {S : Type 0} → (A → Phase) → Result A × S → Result Phase × S
lead f (err e, after) = (err e, after)
lead f (ok a, after) = (ok (f a), after)

module _ {S : Type 0} (world : World S) (in_ : Inputs) (p : Plan) where
  -- A step in a phase and a state, with what it ends in. The arguments are edited where there are any,
  -- and the document is written after them where there is one.
  pub data Tries : Phase → S → Step → Result Phase × S → Type 0 where
    tries_image :
        (now : S)
        → Tries fresh now
            (write_image p.image p.disk.dev_path)
            (lead (λ u. imaged) (world.image_written now p.image p.disk.dev_path))
    tries_efi :
        (now : S)
        → Tries imaged now
            (locate_efi p.disk.dev_path)
            (lead located (world.efi_index now p.disk.dev_path, now))
    tries_meta :
        (i : ℕ) (now : S)
        → Tries
            (located i)
            now
            (locate_meta p.disk.dev_path)
            (lead (λ u. checked i) (world.meta_found now p.disk.dev_path, now))
    tries_node :
        (i : ℕ) (now : S)
        → text_eq p.kernel_args [] ≡ false
        → Tries
            (checked i)
            now
            (ensure_node p.disk.dev_path i)
            (lead prepared (world.node_of now p.disk.dev_path i))
    tries_args :
        (node : Text) (now : S)
        → Tries
            (prepared node)
            now
            (apply_args node p.kernel_args in_.strip_signature)
            (lead (λ u. edited) (world.args_applied now node p.kernel_args in_.strip_signature))
    tries_tag :
        (now : S)
        → text_eq p.network_doc [] ≡ false
        → Tries edited now
            (put_tag p.disk.dev_path p.network_doc)
            (lead (λ u. tagged) (world.tag_written now p.disk.dev_path p.network_doc))
    tries_tag_only :
        (i : ℕ) (now : S)
        → text_eq p.kernel_args [] ≡ true
        → text_eq p.network_doc [] ≡ false
        → Tries
            (checked i)
            now
            (put_tag p.disk.dev_path p.network_doc)
            (lead (λ u. tagged) (world.tag_written now p.disk.dev_path p.network_doc))

  -- Steps in a row from a phase and a state: each but the last succeeds, and where the last fails nothing
  -- follows.
  pub data Runs : Phase → S → List Step → Result Phase × S → Type 0 where
    stops : {a : Phase} {now : S} → Runs a now [] (ok a, now)
    fails :
        {a : Phase} {now after : S} {s : Step} {e : Error}
        → Tries a now s (err e, after)
        → Runs a now (s ∷ []) (err e, after)
    goes :
        {a b : Phase} {now after : S} {s : Step} {steps : List Step} {r : Result Phase × S}
        → Tries a now s (ok b, after)
        → Runs b after steps r
        → Runs a now (s ∷ steps) r

  -- Nothing is left to do.
  abbrev pub IsDone : Phase → Type 0
  IsDone tagged = Unit
  IsDone edited = text_eq p.network_doc [] ≡ true
  IsDone (checked i) = (text_eq p.kernel_args [] ≡ true) × (text_eq p.network_doc [] ≡ true)
  IsDone _ = ⊥

  -- The result of a run: success where nothing is left, or the error of the step that failed.
  abbrev pub Agrees : Result Phase → Result (Unit {0}) → Type 0
  Agrees (ok a) r = IsDone a × (r ≡ ok tt)
  Agrees (err e) r = r ≡ err e

  -- A trace that the protocol allows from a phase and a state.
  abbrev pub Refines : Phase → S → Trace S → Type 0
  Refines a now t = (r : Result Phase) × Runs a now t.steps (r, t.state) × Agrees r t.result

  take_step-Refines {ℓ} :
      {A : Type ℓ} (a : Phase) (now : S) (s : Step) (f : A → Phase) (r : Result A × S)
      (next : A → S → Trace S)
      → Tries a now s (lead f r)
      → ((x : A) (after : S) → Refines (f x) after (next x after))
      → Refines a now (take_step s r next)
  unfolding take_step
  take_step-Refines a now s f (err e, after) next try more = (err e, fails try, refl)
  take_step-Refines a now s f (ok x, after) next try more =
      let (r, runs, agrees) = more x after in (r, goes try runs, agrees)

  put_network-Refines :
      (a : Phase) (now : S)
      → (text_eq p.network_doc [] ≡ true → IsDone a)
      → (text_eq p.network_doc [] ≡ false
          → Tries a now
              (put_tag p.disk.dev_path p.network_doc)
              (lead (λ u. tagged) (world.tag_written now p.disk.dev_path p.network_doc)))
      → Refines a now (put_network world in_ p now)
  put_network-Refines a now done try = elim (Bool-cases (text_eq p.network_doc [])) [
    | inl e ↦ unfold put_network in rw e (ok a, stops, (done e, refl))
    | inr e ↦
        unfold put_network in
        rw e (
          take_step-Refines a now _ (λ u. tagged) _ _ (try e)
            (λ u after. (ok tagged, stops, (tt, refl))))
  ]

  put_args-Refines : (i : ℕ) (now : S) → Refines (checked i) now (put_args world in_ p i now)
  put_args-Refines i now = elim (Bool-cases (text_eq p.kernel_args [])) [
    | inl e ↦
        unfold put_args in
        rw e (put_network-Refines (checked i) now (λ d. (e, d)) (λ d. tries_tag_only i now e d))
    | inr e ↦
        unfold put_args in
        rw e (
          take_step-Refines (checked i) now _ prepared (world.node_of now p.disk.dev_path i) _
            (tries_node i now e)
            (λ node then_.
              take_step-Refines (prepared node) then_ _ (λ u. edited) _ _ (tries_args node then_)
                (λ u after. put_network-Refines edited after (λ d. d) (λ d. tries_tag after d))))
  ]

  execute-Refines : (now : S) → Refines fresh now (execute world in_ p now)
  unfolding execute
  execute-Refines now =
      take_step-Refines fresh now _ (λ u. imaged) _ _ (tries_image now)
        (λ u written. take_step-Refines imaged written _ located _ _ (tries_efi written) (λ i read.
          take_step-Refines (located i) read _ (λ v. checked i) _ _ (tries_meta i read)
            (λ v after. put_args-Refines i after)))

module _ {S : Type 0} where
  carry_out-Refines :
      (world : World S) (in_ : Inputs) (now : S) (r : Result Plan)
      → ((e : Error) × (r ≡ err e) × (carry_out world in_ now r ≡ at_rest (err e) now))
        ⊎ ((p : Plan) × (r ≡ ok p)
            × (((in_.dry_run ≡ true) × (carry_out world in_ now r ≡ at_rest (ok tt) now))
                ⊎ ((in_.dry_run ≡ false)
                    × Refines world in_ p fresh now (carry_out world in_ now r))))
  unfolding carry_out
  carry_out-Refines world in_ now (err e) = inl (e, refl, refl)
  carry_out-Refines world in_ now (ok p) = elim (Bool-cases in_.dry_run) [
    | inl d ↦ inr (p, refl, inl (d, simp d refl))
    | inr d ↦ inr (p, refl, inr (d, simp d (execute-Refines world in_ p now)))
  ]

  -- run stops before the first step, with the error of its preparation or because of a dry run, and
  -- leaves the machine as it was, or it carries out the protocol of an installation for its plan: the
  -- image, the EFI and the META partition, the kernel arguments if there are any, the network document
  -- if there is one, each in the state that the step before has left. It stops at the first step that
  -- fails, with its error, and succeeds only where nothing is left to do.
  pub run-Refines :
      (deps : Deps) (decode : Decoders) (world : World S) (now : S) (in_ : Inputs)
      → let t = run deps decode world now in_ in
        ((e : Error) × (prepare deps decode in_ ≡ err e) × (t ≡ at_rest (err e) now))
        ⊎ ((p : Plan) × (prepare deps decode in_ ≡ ok p)
            × (((in_.dry_run ≡ true) × (t ≡ at_rest (ok tt) now))
                ⊎ ((in_.dry_run ≡ false) × Refines world in_ p fresh now t)))
  unfolding run
  run-Refines deps decode world now in_ = carry_out-Refines world in_ now (prepare deps decode in_)
