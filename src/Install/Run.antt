-- ===== src/Install/Run.antt =====
-- talos2disk/run.go: run and execute, on the states of a machine. What the steps do to it is given by
-- the record `World`, since the image, the nodes, the mounts and META are other packages' work; the
-- model keeps which of them are taken, in order, and the state that they leave. The image is written
-- under Retry, which answers with the error of its last attempt.
use actions.Prelude.{
  ℕ, Bool, true, not, List, [], ◌∷◌, Option, Result, ok, err, ◌>>=◌, ◌>>◌, guard, no_hardware,
  bad_network_config, if◌then◌else◌,
}
use actions.Text.{Text, text_eq, trim_space}
use actions.Disks.Selector.{Decoded}
use actions.Hardware.{Hardware, user_data}
use actions.MachineConfig.{YamlDocument, parse_config}
use actions.Install.{Inputs, resolve_settings}
use actions.Install.Planned.{Deps, Plan, build_plan}

-- The steps of execute that reach the machine.
pub data Step : Type 0 where
  write_image : Text → Text → Step
  locate_efi : Text → Step
  locate_meta : Text → Step
  ensure_node : Text → ℕ → Step
  apply_args : Text → Text → Bool → Step
  put_tag : Text → Text → Step

-- How they end in a state of the machine, and the state that they leave: image.Write under Retry,
-- partition.Locate (the index), meta.Locate, partition.EnsureNode, cmdline.Apply and meta.WriteTag.
pub record World (S : Type 0) : Type 0 where
  pub image_written : S → Text → Text → Result (Unit {0}) × S
  pub efi_index : S → Text → Result ℕ
  pub meta_found : S → Text → Result (Unit {0})
  pub node_of : S → Text → ℕ → Result Text × S
  pub args_applied : S → Text → Text → Bool → Result (Unit {0}) × S
  pub tag_written : S → Text → Text → Result (Unit {0}) × S

-- How execute ended, the steps that it took, and the state that it left.
pub record Trace (S : Type 0) : Type 0 where
  pub result : Result (Unit {0})
  pub steps : List Step
  pub state : S

module _ {S : Type 0} where
  -- No step.
  abbrev pub at_rest : Result (Unit {0}) → S → Trace S
  at_rest r now = record { result = r; steps = []; state = now }

  -- A step, how it ends, and what follows where it succeeds.
  unfoldable pub take_step {ℓ} : {A : Type ℓ} → Step → Result A × S → (A → S → Trace S) → Trace S
  take_step s (err e, now) next = record { result = err e; steps = s ∷ []; state = now }
  take_step s (ok a, now) next =
      let t = next a now in record { result = t.result; steps = s ∷ t.steps; state = t.state }

  module _ (world : World S) (in_ : Inputs) (p : Plan) where
    -- The network document goes to META last.
    unfoldable pub put_network : S → Trace S
    put_network now =
        if text_eq p.network_doc []
        then at_rest (ok tt) now
        else take_step (put_tag p.disk.dev_path p.network_doc)
            (world.tag_written now p.disk.dev_path p.network_doc) (λ u. at_rest (ok tt))

    -- The kernel arguments, if there are any.
    unfoldable pub put_args : ℕ → S → Trace S
    put_args index now =
        if text_eq p.kernel_args []
        then put_network now
        else take_step (ensure_node p.disk.dev_path index) (world.node_of now p.disk.dev_path index)
            (λ node then_.
              take_step (apply_args node p.kernel_args in_.strip_signature)
                (world.args_applied then_ node p.kernel_args in_.strip_signature)
                (λ u. put_network))

    -- execute
    unfoldable pub execute : S → Trace S
    execute now =
        take_step (write_image p.image p.disk.dev_path)
          (world.image_written now p.image p.disk.dev_path)
          (λ u imaged.
            take_step (locate_efi p.disk.dev_path) (world.efi_index imaged p.disk.dev_path, imaged)
              (λ index read.
                take_step (locate_meta p.disk.dev_path)
                  (world.meta_found read p.disk.dev_path, read) (λ v. put_args index)))

-- What run decodes: humanize.ParseBytes, the YAML of selectors and of the machine configuration, the
-- JSON of the Hardware, and whether talosnet.Parse accepts a document.
pub record Decoders : Type 0 where
  pub parse_bytes : Text → Option ℕ
  pub selector : Text → Decoded
  pub config : Text → List (Result YamlDocument)
  pub hardware : Text → Result Hardware
  pub network_ok : Text → Bool

-- run up to the plan.
unfoldable pub prepare : Deps → Decoders → Inputs → Result Plan
prepare deps decode in_ = do
  guard (not (text_eq (trim_space in_.hardware) [])) no_hardware
  hw ← decode.hardware in_.hardware
  cfg ← parse_config decode.config (user_data hw)
  settings ← resolve_settings decode.parse_bytes decode.selector in_ hw cfg
  guard (if text_eq in_.network_config [] then true else decode.network_ok in_.network_config)
      bad_network_config
  build_plan deps in_ hw settings

module _ {S : Type 0} where
  -- run after the plan: a dry run ends there.
  unfoldable pub carry_out : World S → Inputs → S → Result Plan → Trace S
  carry_out world in_ now (err e) = at_rest (err e) now
  carry_out world in_ now (ok p) =
      if in_.dry_run then at_rest (ok tt) now else execute world in_ p now

  -- run, from a state of the machine
  unfoldable pub run : Deps → Decoders → World S → S → Inputs → Trace S
  run deps decode world now in_ = carry_out world in_ now (prepare deps decode in_)
