-- ===== src/Install/Exit.antt =====
-- talos2disk/main.go and deps.go: what an exit code of zero says, and the plan that the production
-- surroundings give.
use actions.Prelude.{
  ◌≡◌, refl, sym, ap, ◌∙◌, subst, true, false, List, Result, ok, err, ok-injective, Error, or_err,
  or_err-ok, on_ok, inl, inr, ◌⊎◌, bad_factory_url, Bool-cases, some, arith,
}
use actions.Text.{Text}
use actions.Disks.{enumerate}
use actions.Hardware.{Hardware}
use actions.Factory.{is_bare_minor, resolve_version, image_url}
use actions.Factory.Client.{new_client, client_versions}
use actions.Install.{Inputs, Settings}
use actions.Install.Planned.{
  Deps, Plan, build_plan, choose_disk, plan_version, plan_network, use_kernel_names,
}
use actions.Install.Run.{World, Trace, at_rest, Decoders, prepare, run}
use actions.Install.Protocol.{Phase, fresh, Runs, IsDone, Refines, run-Refines}
use actions.Install.Wired.{Host, default_deps, real_main, to_option, exit_code}

module _ {S : Type 0} where
  -- An installation that is complete: its steps have all succeeded, and nothing is left to do.
  abbrev pub IsComplete : World S → Inputs → Plan → S → Trace S → Type 0
  IsComplete world in_ p now t =
      (a : Phase) × Runs world in_ p fresh now t.steps (ok a, t.state) × IsDone world in_ p a

  IsComplete-of_ok :
      (world : World S) (in_ : Inputs) (p : Plan) (now : S) (t : Trace S)
      → Refines world in_ p fresh now t
      → exit_code t.result ≡ 0
      → IsComplete world in_ p now t
  unfolding exit_code
  IsComplete-of_ok world in_ p now t (ok a, runs, (done, e)) h = (a, runs, done)
  IsComplete-of_ok world in_ p now t (err e, runs, same) h = absurd (differ t.result same h)
    where
      differ : (r : Result (Unit {0})) → r ≡ err e → exit_code r ≡ 0 → ⊥
      differ (err x) s z = ground arith
      differ (ok u) s z = cc

  -- The program exits with zero only where its inputs are accepted and the plan is whole, and then
  -- either for a dry run, in which it takes no step and leaves the machine as it was, or with the
  -- installation complete.
  pub real_main_zero :
      (deps : Deps) (decode : Decoders) (world : World S) (now : S) (inputs : Result Inputs)
      → real_main inputs (run deps decode world now) ≡ 0
      → (in_ : Inputs) × (p : Plan) × (inputs ≡ ok in_)
        × (prepare deps decode in_ ≡ ok p)
        × (((in_.dry_run ≡ true) × (run deps decode world now in_ ≡ at_rest (ok tt) now))
            ⊎ ((in_.dry_run ≡ false) × IsComplete world in_ p now (run deps decode world now in_)))
  unfolding real_main
  real_main_zero deps decode world now (err e) h = absurd (ground arith)
  real_main_zero deps decode world now (ok in_) h = elim (run-Refines deps decode world now in_) [
    | inl (e, _, r) ↦ absurd (failed e (sym (ap (λ t. exit_code t.result) r) ∙ h))
    | inr (p, made, inl (dry, r)) ↦ (in_, p, refl, made, inl (dry, r))
    | inr (p, made, inr (wet, refines)) ↦ (
      in_,
      p,
      refl,
      made,
      inr (wet, IsComplete-of_ok world in_ p now (run deps decode world now in_) refines h),
    )
  ]
    where
      failed : (e : Error) → exit_code (err e) ≡ 0 → ⊥
      failed e z = ground arith

-- The version of a plan comes from the settings, or, where they name a bare minor, it is what
-- ResolveVersion finds among the versions that the factory at this base URL serves.
abbrev pub IsPlanned : Host → Text → Text → Text → Type 0
IsPlanned host base wanted version =
    ((is_bare_minor wanted ≡ false) × (version ≡ wanted))
    ⊎ ((is_bare_minor wanted ≡ true)
        × ((served : List Text) × (client_versions host.http host.decode_versions base ≡ ok served)
            × (resolve_version wanted served ≡ ok version)))

plan_version-IsPlanned :
    (host : Host) (base wanted version : Text)
    → plan_version (client_versions host.http host.decode_versions) base wanted ≡ ok version
    → IsPlanned host base wanted version
plan_version-IsPlanned host base wanted version = elim (Bool-cases (is_bare_minor wanted)) [
  | inr e ↦ unfold plan_version in rw e (λ h. inl (refl, sym (ok-injective h)))
  | inl e ↦
      unfold plan_version in
      rw e (λ h.
        on_ok (client_versions host.http host.decode_versions base) _ h
          (λ served got h1. inr (refl, (served, got, h1))))
]

to_option-ok : (r : Result Text) (t : Text) → to_option r ≡ some t → r ≡ ok t
to_option-ok (err e) t h = cc
to_option-ok (ok u) t h = cc

-- A plan made in the production surroundings downloads its image from the base URL that NewClient makes
-- of the factory URL in the settings, for the schematic of the settings, the architecture of the host,
-- and a version that is that of the settings or the newest that this factory serves for a bare minor.
pub default_plan_lem :
    (host : Host) (in_ : Inputs) (hw : Hardware) (s : Settings) (p : Plan)
    → build_plan (default_deps host) in_ hw s ≡ ok p
    → (base : Text) × (new_client host.parse_url s.factory_url.0 ≡ ok base)
      × (p.image ≡ image_url base s.schematic.0 p.version host.arch)
      × IsPlanned host base s.version.0 p.version
unfolding build_plan default_deps
default_plan_lem host in_ hw s p h =
    let deps = default_deps host in
    on_ok (enumerate deps.dev_root deps.probe deps.entries) _ h (λ enum _ h1.
      on_ok (choose_disk deps enum.disks s.disk) _ h1 (λ c _ h2.
        on_ok (or_err (deps.base_url s.factory_url.0) bad_factory_url) _ h2 (λ base made h3.
          on_ok (plan_version deps.versions base s.version.0) _ h3 (λ v resolved h4.
            on_ok (plan_network deps in_ hw s (use_kernel_names in_.link_naming s.kernel_args)) _ h4
              (λ doc _ h5.
                let (image, version) =
                  subst
                    (λ z.
                      (z.image ≡ image_url base s.schematic.0 z.version host.arch)
                      × IsPlanned host base s.version.0 z.version)
                    (ok-injective h5)
                    (refl, plan_version-IsPlanned host base s.version.0 v resolved) in
                (
                  base,
                  to_option-ok (new_client host.parse_url s.factory_url.0) base
                      (or_err-ok _ bad_factory_url base made),
                  image,
                  version,
                ))))))
