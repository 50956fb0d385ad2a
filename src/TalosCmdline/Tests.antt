-- ===== src/TalosCmdline/Tests.antt =====
-- taloscmdline on a disk with an EFI partition.
use actions.Prelude.{◌≡◌, ◌⊎◌, refl, false, List, [], ◌∷◌, Option, some, Error, ok, if◌then◌else◌}
use actions.Text.{Text, codes, text_eq, trim_space}
use actions.Files.{Faults}
use actions.Uki.Sample.{optional, headers_of, uki_path, disk, no_faults}
use actions.Cmdline.{stopped, apply, default_pattern, validate_pattern}
use actions.Partition.{Table, Partition, gpt, device, find_label, locate}
use actions.Install.Environment.{parse_bool}
use actions.TalosCmdline.{prepare_cmdline, run_cmdline}
use actions.TalosCmdline.Applied.{
  run_cmdline_lem, IsUnusable, IsUsable, dest_disk, kernel_args, uki_pattern,
}

abbrev env : Text → Text
env name =
    if text_eq name (codes "DEST_DISK")
    then codes "/dev/sda"
    else if text_eq name (codes "KERNEL_ARGS")
    then codes " a=1 "
    else []

abbrev table_of : Text → Option Table
table_of path =
    some (
      gpt 512 (some (record { index = 1; start = 2048; last = 4095; name = codes "EFI" }) ∷ []) 512)

abbrev steady : Text → Faults
steady path = no_faults

abbrev one_match : Text → Option (List Text)
one_match pattern = some (uki_path ∷ [])

prepares :
    prepare_cmdline env table_of
    ≡ ok (record {
      disk = codes "/dev/sda";
      args = codes "a=1";
      pattern = default_pattern;
      part = record { index = 1; offset = 1048576; size = 1048576 };
    })
unfolding prepare_cmdline text_eq trim_space validate_pattern locate find_label
prepares = refl

run_cmdline_lem_example :
    let r = run_cmdline (headers_of optional) steady one_match false env table_of disk in
    ((e : Error) × (r ≡ (stopped disk e, [])) × IsUnusable env table_of e)
    ⊎ ((part : Partition) × IsUsable env table_of part
        × (r
            ≡ apply
                (headers_of optional)
                steady
                one_match
                false
                disk
                (device (dest_disk env) part.index)
                (kernel_args env)
                (uki_pattern env)
                []
                (parse_bool (env (codes "STRIP_SIGNATURE")))))
run_cmdline_lem_example =
    run_cmdline_lem (headers_of optional) steady one_match false env table_of disk
