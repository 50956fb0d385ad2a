-- ===== src/TalosCmdline/Applied.antt =====
-- taloscmdline/main.go: what run does to a disk.
use actions.Prelude.{
  ◌≡◌, refl, Bool, true, false, List, [], Option, Error, ok, err, Result-cases, Bool-cases, inl,
  inr, ◌⊎◌, no_disk, no_kernel_args, escaping_pattern,
}
use actions.Text.{Text, codes, text_eq, trim_space}
use actions.Files.{Files, Faults}
use actions.Uki.{Bytes, PeFile}
use actions.Cmdline.{apply, stopped, or_default, default_pattern}
use actions.Cmdline.Apply.{escapes, validate_pattern-cases}
use actions.Partition.{Table, Partition, locate, device}
use actions.Install.Environment.{parse_bool}
use actions.TalosCmdline.{prepare_cmdline, call_apply, run_cmdline}

module _ (env : Text → Text) where
  abbrev pub dest_disk : Text
  dest_disk = env (codes "DEST_DISK")

  abbrev pub kernel_args : Text
  kernel_args = trim_space (env (codes "KERNEL_ARGS"))

  abbrev pub uki_pattern : Text
  uki_pattern = or_default (env (codes "UKI_PATTERN")) default_pattern

module _ (env : Text → Text) (table_of : Text → Option Table) where
  -- Why run stops before it calls Apply.
  abbrev pub IsUnusable : Error → Type 0
  IsUnusable e =
      ((text_eq (dest_disk env) [] ≡ true) × (e ≡ no_disk))
      ⊎ ((text_eq (kernel_args env) [] ≡ true) × (e ≡ no_kernel_args))
      ⊎ ((escapes (uki_pattern env) ≡ true) × (e ≡ escaping_pattern))
      ⊎ (locate (table_of (dest_disk env)) (codes "EFI") ≡ err e)

  -- All inputs can be used, and this is the EFI partition of the disk.
  abbrev pub IsUsable : Partition → Type 0
  IsUsable part =
      (text_eq (dest_disk env) [] ≡ false)
      × (text_eq (kernel_args env) [] ≡ false)
      × (escapes (uki_pattern env) ≡ false)
      × (locate (table_of (dest_disk env)) (codes "EFI") ≡ ok part)

  prepare_cmdline-cases :
      ((e : Error) × (prepare_cmdline env table_of ≡ err e) × IsUnusable e)
      ⊎ ((part : Partition) × IsUsable part
          × (prepare_cmdline env table_of
              ≡ ok (record {
                disk = dest_disk env;
                args = kernel_args env;
                pattern = uki_pattern env;
                part = part;
              })))
  unfolding prepare_cmdline
  prepare_cmdline-cases = elim (Bool-cases (text_eq (dest_disk env) [])) [
    | inl d ↦ rw d (inl (no_disk, refl, inl (refl, refl)))
    | inr d ↦ elim (Bool-cases (text_eq (kernel_args env) [])) [
      | inl a ↦ rw (d, a) (inl (no_kernel_args, refl, inr (inl (refl, refl))))
      | inr a ↦ elim (validate_pattern-cases (uki_pattern env)) [
        | inr (v, x) ↦ rw (d, a, v) (inl (escaping_pattern, refl, inr (inr (inl (x, refl)))))
        | inl (v, x) ↦ elim (Result-cases (locate (table_of (dest_disk env)) (codes "EFI"))) [
          | inr (e, l) ↦ rw (d, a, v, l) (inl (e, refl, inr (inr (inr refl))))
          | inl (part, l) ↦ rw (d, a, v, l) (inr (part, (refl, refl, x, refl), refl))
        ]
      ]
    ]
  ]

-- run stops with an error before it mounts anything and changes no file, because no disk is set, the
-- arguments are blank, the pattern is absolute or holds "..", or the disk has no EFI partition; or none
-- of this is so, and it does what Apply does with the device of the partition labelled EFI, the trimmed
-- arguments and the pattern that is set or the default.
pub run_cmdline_lem :
    (pe_file : Bytes → Option PeFile) (faults : Text → Faults) (glob : Text → Option (List Text))
    (mount_fails : Bool) (env : Text → Text) (table_of : Text → Option Table) (files : Files)
    → let r = run_cmdline pe_file faults glob mount_fails env table_of files in
      ((e : Error) × (r ≡ (stopped files e, [])) × IsUnusable env table_of e)
      ⊎ ((part : Partition) × IsUsable env table_of part
          × (r
              ≡ apply pe_file faults glob mount_fails files
                  (device (dest_disk env) part.index)
                  (kernel_args env)
                  (uki_pattern env)
                  []
                  (parse_bool (env (codes "STRIP_SIGNATURE")))))
run_cmdline_lem pe_file faults glob mount_fails env table_of files =
    elim (prepare_cmdline-cases env table_of) [
      | inl (e, h, why) ↦ inl (e, (unfold run_cmdline call_apply in rw h refl), why)
      | inr (part, usable, h) ↦ inr (part, usable, (unfold run_cmdline call_apply in rw h refl))
    ]
