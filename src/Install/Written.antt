-- ===== src/Install/Written.antt =====
-- talos2disk/run.go: what an installation touches.
use actions.Prelude.{
  ◌≡◌, refl, subst, sym, ◌∙◌, Bool, true, false, not, List, [], ◌∷◌, Result, ok, err, on_ok,
  ok-injective, or_err, guard, All, Bool-cases, inl, inr, ◌⊎◌, ℕ, if◌then◌else◌, bad_factory_url,
  no_hardware, bad_network_config, not_eligible,
}
use actions.Text.{Text, text_eq, trim_space}
use actions.Disks.{Disk, eligible, enumerate}
use actions.Disks.Selector.{Selector, matches}
use actions.Disks.Select.{select_path}
use actions.Disks.Chosen.{select_lem, select_path_lem}
use actions.Hardware.{Hardware, user_data}
use actions.MachineConfig.{parse_config}
use actions.Install.{Inputs, Settings, DiskChoice, by_selector, by_path, resolve_settings}
use actions.Install.Planned.{
  Deps, Plan, build_plan, choose_disk, plan_version, plan_network, use_kernel_names,
}
use actions.Install.Run.{
  Step, write_image, locate_efi, locate_meta, ensure_node, apply_args, put_tag, World, Trace,
  take_step, put_network, put_args, execute, Decoders, prepare, carry_out, run,
}

matches-eligible :
    (glob : Text → Text → Bool) (s : Selector) (d : Disk)
    → matches glob s d ≡ true
    → eligible d ≡ true
matches-eligible glob s d = elim (Bool-cases (eligible d)) [
  | inl e ↦ λ h. e
  | inr e ↦ unfold matches in rw e (λ h. cc)
]

eligible_of_test :
    (x c : Disk) → (if eligible x then ok x else err not_eligible) ≡ ok c → eligible c ≡ true
eligible_of_test x c = elim (Bool-cases (eligible x)) [
  | inl t ↦ rw t (λ h. subst (λ z. eligible z ≡ true) (ok-injective h) t)
  | inr t ↦ rw t (λ h. cc)
]

choose_disk-eligible :
    (deps : Deps) (disks : List Disk) (choice : DiskChoice) (d : Disk) (ds : List Disk)
    → choose_disk deps disks choice ≡ ok (d, ds)
    → eligible d ≡ true
unfolding choose_disk
choose_disk-eligible deps disks (by_selector sel source) d ds h =
    elim (select_lem deps.glob disks sel) [
      | inr (e, _) ↦ cc
      | inl (c, cs, e, (_, m, _)) ↦
          let same : (c, c ∷ cs) ≡ (d, ds) = ok-injective (sym e ∙ h) in
          subst (λ z. eligible z.0 ≡ true) same (matches-eligible deps.glob sel c m)
    ]
choose_disk-eligible deps disks (by_path path source) d ds h =
    on_ok (select_path deps.eval_symlinks disks path) _ h (λ c hc h1.
      let same : (c, c ∷ []) ≡ (d, ds) = ok-injective h1 in
      subst (λ z. eligible z.0 ≡ true) same (path_eligible deps disks path c hc))
  where
    path_eligible :
        (deps : Deps) (disks : List Disk) (path : Text) (c : Disk)
        → select_path deps.eval_symlinks disks path ≡ ok c
        → eligible c ≡ true
    path_eligible deps disks path c hc = elim (select_path_lem deps.eval_symlinks disks path) [
      | inr (e, _) ↦ cc
      | inl (x, before, after, _, _, _, e) ↦ eligible_of_test x c (sym e ∙ hc)
    ]

build_plan-eligible :
    (deps : Deps) (in_ : Inputs) (hw : Hardware) (s : Settings) (p : Plan)
    → build_plan deps in_ hw s ≡ ok p
    → eligible p.disk ≡ true
unfolding build_plan
build_plan-eligible deps in_ hw s p h =
    on_ok (enumerate deps.dev_root deps.probe deps.entries) _ h (λ enum _ h1.
      on_ok (choose_disk deps enum.disks s.disk) _ h1 (λ c hc h2.
        on_ok (or_err (deps.base_url s.factory_url.0) bad_factory_url) _ h2 (λ base _ h3.
          on_ok (plan_version deps.versions base s.version.0) _ h3 (λ v _ h4.
            on_ok (plan_network deps in_ hw s (use_kernel_names in_.link_naming s.kernel_args)) _ h4
              (λ doc _ h5.
                subst (λ z. eligible z.disk ≡ true) (ok-injective h5)
                  (choose_disk-eligible deps enum.disks s.disk c.0 c.1 hc))))))

prepare-eligible :
    (deps : Deps) (decode : Decoders) (in_ : Inputs) (p : Plan)
    → prepare deps decode in_ ≡ ok p
    → eligible p.disk ≡ true
unfolding prepare
prepare-eligible deps decode in_ p h =
    on_ok (guard (not (text_eq (trim_space in_.hardware) [])) no_hardware) _ h (λ u _ h1.
      on_ok (decode.hardware in_.hardware) _ h1 (λ hw _ h2.
        on_ok (parse_config decode.config (user_data hw)) _ h2 (λ cfg _ h3.
          on_ok (resolve_settings decode.parse_bytes decode.selector in_ hw cfg) _ h3 (λ s _ h4.
            on_ok
              (guard
                (if text_eq in_.network_config []
                  then true
                  else decode.network_ok in_.network_config)
                bad_network_config)
              _ h4 (λ v _ h5. build_plan-eligible deps in_ hw s p h5)))))

module _ {S : Type 0} where
  -- A step is about this disk, or is the editing of a node that was made for a partition of it.
  abbrev pub IsOn : World S → Text → Step → Type 0
  IsOn world dev (write_image url d) = d ≡ dev
  IsOn world dev (locate_efi d) = d ≡ dev
  IsOn world dev (locate_meta d) = d ≡ dev
  IsOn world dev (ensure_node d index) = d ≡ dev
  IsOn world dev (apply_args node args strip) =
      (now : S) × (index : ℕ) × ((world.node_of now dev index).0 ≡ ok node)
  IsOn world dev (put_tag d doc) = d ≡ dev

  take_step-All {ℓ} :
      {A : Type ℓ} (P : Step → Type 0) (s : Step) (r : Result A × S) (next : A → S → Trace S)
      → P s
      → ((a : A) (now : S) → r.0 ≡ ok a → All P (next a now).steps)
      → All P (take_step s r next).steps
  unfolding take_step
  take_step-All P s (err e, now) next h k = (h, tt)
  take_step-All P s (ok a, now) next h k = (h, k a now refl)

  module _ (world : World S) (in_ : Inputs) (p : Plan) where
    put_network-On :
        (now : S) → All (IsOn world p.disk.dev_path) (put_network world in_ p now).steps
    put_network-On now = elim (Bool-cases (text_eq p.network_doc [])) [
      | inl e ↦ unfold put_network in rw e tt
      | inr e ↦
          unfold put_network in
          rw e (take_step-All (IsOn world p.disk.dev_path) _ _ _ refl (λ u _ _. tt))
    ]

    put_args-On :
        (index : ℕ) (now : S)
        → All (IsOn world p.disk.dev_path) (put_args world in_ p index now).steps
    put_args-On index now = elim (Bool-cases (text_eq p.kernel_args [])) [
      | inl e ↦ unfold put_args in rw e (put_network-On now)
      | inr e ↦
          unfold put_args in
          rw e (
            take_step-All (IsOn world p.disk.dev_path) _ (world.node_of now p.disk.dev_path index) _
              refl
              (λ node later made.
                take_step-All (IsOn world p.disk.dev_path) _ _ _ (now, index, made)
                  (λ u after _. put_network-On after)))
    ]

    execute-On : (now : S) → All (IsOn world p.disk.dev_path) (execute world in_ p now).steps
    unfolding execute
    execute-On now = take_step-All (IsOn world p.disk.dev_path) _ _ _ refl (λ u imaged _.
        take_step-All (IsOn world p.disk.dev_path) _ _ _ refl (λ index read _.
          take_step-All (IsOn world p.disk.dev_path) _ _ _ refl
            (λ v after _. put_args-On index after)))

  carry_out-Safe :
      (world : World S) (in_ : Inputs) (now : S) (r : Result Plan)
      → (((carry_out world in_ now r).steps ≡ []) × ((carry_out world in_ now r).state ≡ now))
        ⊎ ((p : Plan) × (r ≡ ok p)
            × (in_.dry_run ≡ false)
            × All (IsOn world p.disk.dev_path) (carry_out world in_ now r).steps)
  unfolding carry_out
  carry_out-Safe world in_ now (err e) = inl (refl, refl)
  carry_out-Safe world in_ now (ok p) = elim (Bool-cases in_.dry_run) [
    | inl e ↦ simp e (inl (refl, refl))
    | inr e ↦ inr (p, refl, e, simp e (execute-On world in_ p now))
  ]

  -- run takes no step and leaves the machine as it was, or the plan was whole before the first step, it
  -- was no dry run, the disk of the plan is eligible, and every step is about this disk or edits a node
  -- that was made for a partition of it.
  pub run_safe :
      (deps : Deps) (decode : Decoders) (world : World S) (now : S) (in_ : Inputs)
      → let t = run deps decode world now in_ in
        ((t.steps ≡ []) × (t.state ≡ now))
        ⊎ ((p : Plan) × (prepare deps decode in_ ≡ ok p)
            × (in_.dry_run ≡ false)
            × (eligible p.disk ≡ true)
            × All (IsOn world p.disk.dev_path) t.steps)
  unfolding run
  run_safe deps decode world now in_ =
      elim (carry_out-Safe world in_ now (prepare deps decode in_)) [
        | inl e ↦ inl e
        | inr (p, h, dry, all) ↦ inr (p, h, dry, prepare-eligible deps decode in_ p h, all)
      ]
