-- ===== src/TalosCmdline.antt =====
-- taloscmdline/main.go: run, which sets the kernel arguments on the EFI partition of a disk. `env` is
-- os.Getenv; `table_of` reads the partition table of a disk; the other parameters are those of Apply.
pub mod Applied
mod Tests
use actions.Prelude.{
  Bool, true, false, not, List, [], ◌∷◌, Option, none, some, Error, Result, ok, err, ◌>>=◌, ◌>>◌,
  guard, no_disk, no_kernel_args, if◌then◌else◌,
}
use actions.Text.{Text, codes, text_eq, trim_space}
use actions.Files.{Files, Faults}
use actions.Uki.{Bytes, PeFile}
use actions.Cmdline.{Outcome, Event, apply, stopped, or_default, default_pattern, validate_pattern}
use actions.Partition.{Table, Partition, locate, device}
use actions.Install.Environment.{parse_bool}

-- What run finds before it calls Apply: the disk, the arguments, the pattern and the EFI partition.
pub record Prepared : Type 0 where
  pub disk : Text
  pub args : Text
  pub pattern : Text
  pub part : Partition

-- run up to the call of Apply.
unfoldable pub prepare_cmdline : (Text → Text) → (Text → Option Table) → Result Prepared
prepare_cmdline env table_of = do
  let disk = env (codes "DEST_DISK")
  guard (not (text_eq disk [])) no_disk
  let args = trim_space (env (codes "KERNEL_ARGS"))
  guard (not (text_eq args [])) no_kernel_args
  let pattern = or_default (env (codes "UKI_PATTERN")) default_pattern
  validate_pattern pattern
  part ← locate (table_of disk) (codes "EFI")
  ok (record { disk = disk; args = args; pattern = pattern; part = part })

module _ (pe_file : Bytes → Option PeFile) (faults : Text → Faults)
    (glob : Text → Option (List Text)) (mount_fails : Bool) where
  -- The call of Apply; the mount point is the default.
  unfoldable pub call_apply : Files → Bool → Result Prepared → Outcome × List Event
  call_apply files strip (err e) = (stopped files e, [])
  call_apply files strip (ok p) =
      apply pe_file faults glob mount_fails files (device p.disk p.part.index) p.args p.pattern []
        strip

  -- run
  unfoldable pub run_cmdline : (Text → Text) → (Text → Option Table) → Files → Outcome × List Event
  run_cmdline env table_of files =
      call_apply files (parse_bool (env (codes "STRIP_SIGNATURE"))) (prepare_cmdline env table_of)
