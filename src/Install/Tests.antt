-- ===== src/Install/Tests.antt =====
-- talos2disk on a machine with one disk.
mod Production
mod TenBytes
use actions.Text.Numbers.{atoi}
use actions.Disks.Select.{select_path, resolve, find_path}
use actions.Prelude.Sort.{sort, insert}
use actions.Text.Fields.{fields}
use actions.Kargs.{merge, merge_arg}
use actions.Prelude.{
  ◌+◌, Error, List, ◌≢◌, Memᴰ, if◌then◌else◌, ℕ, ◌≡◌, ◌⊎◌, refl, true, false, ◌||◌, [], ◌∷◌, ◌++◌,
  Option, none, some, ok, err, All, no_such_interface, length,
}
use actions.Text.{
  Text, codes, text_eq, trim_space, has_member, join, is_space, cut, has_prefix, contains,
}
use actions.Disks.{Disk, eligible, enumerate, probe_all, note, sort_by_name}
use actions.Disks.Selector.{Decoded, end_of_file}
use actions.Hardware.{
  Hardware, first_disk, first_device, os_version, operating_system, annotation, lookup, user_data,
}
use actions.MachineConfig.{install_disk_path, image_tag, parse_config}
use actions.Factory.{
  is_full_version, is_bare_minor, is_schematic, skip_minor, skip_char, skip_number, is_suffix,
  after_digits, resolve_version, patch_of, best_patch,
}
use actions.Install.{
  Inputs, Settings, version_candidates, resolve_settings, by_path, resolve_disk, resolve_schematic,
  resolve_setting_version, first_version, reference_of, resolve_factory_url,
}
use actions.Install.Planned.{
  Deps, Plan, build_plan, choose_disk, plan_version, plan_network, use_kernel_names,
}
use actions.Install.Precedence.{IsFirst, IsSchematic, resolve_settings_lem}
use actions.Install.Run.{
  World, at_rest, Decoders, prepare, run, carry_out, execute, put_args, put_network, take_step,
}
use actions.Install.Unknown.{not_declared, is_device, declared_warnings, behind_links}
use actions.Install.Warned.{named}
use actions.Install.Protocol.{Refines, fresh, run-Refines}
use actions.Install.Written.{IsOn, run_safe}
use actions.Net.Sample.{netip}

abbrev hardware : Hardware
hardware = record {
  annotations = (codes "talos.tinkerbell.org/contract", codes "v1.14") ∷ [];
  spec = record {
    interfaces = [];
    disks = codes "/dev/sda" ∷ [];
    the_instance = none;
    user_data = none;
  };
  status = none;
}

abbrev schematic : Text
schematic = codes "0123456789abcdef0123456789abcdef0123456789abcdef0123456789abcdef"

abbrev inputs : Inputs
inputs = record {
  hardware = codes "{}";
  schematic_id = schematic;
  talos_version = [];
  disk_selector = [];
  kernel_args = codes "quiet";
  factory_url = [];
  network_config = codes "links: []";
  link_naming = [];
  strip_signature = false;
  retry_window = 0;
  dry_run = false;
}

abbrev size_of : Text → Option ℕ
size_of text = none

abbrev decode : Text → Decoded
decode text = end_of_file

abbrev settings : Settings
settings = record {
  disk = by_path (codes "/dev/sda") (codes "spec.disks[0].device");
  schematic = (schematic, codes "SCHEMATIC_ID");
  version = (codes "v1.14", codes "talos.tinkerbell.org/contract");
  factory_url = (codes "https://factory.talos.dev", codes "default");
  kernel_args = codes "quiet";
  network = record { hostname = []; nameservers = []; time_servers = [] };
}

settings_run : resolve_settings size_of decode inputs hardware none ≡ ok settings
unfolding resolve_settings resolve_disk text_eq install_disk_path first_disk first_device
    resolve_schematic is_schematic resolve_setting_version first_version image_tag os_version
    operating_system annotation trim_space lookup is_full_version skip_minor is_bare_minor skip_char
    skip_number is_suffix reference_of resolve_factory_url merge fields has_member join is_space
    after_digits cut merge_arg
settings_run = refl

resolve_settings_lem_example :
    ((is_full_version (codes "v1.14") || is_bare_minor (codes "v1.14")) ≡ true)
    × IsFirst
        ((inputs.talos_version, codes "TALOS_VERSION")
          ∷ (image_tag none, codes "machine.install.image")
          ∷ (os_version hardware, codes "metadata.instance.operating_system.version")
          ∷ (
            annotation hardware (codes "talos.tinkerbell.org/contract"),
            codes "talos.tinkerbell.org/contract",
          )
          ∷ [])
        settings.version
    × IsSchematic inputs hardware (reference_of none) settings.schematic
    × ((text_eq inputs.schematic_id [] || is_schematic inputs.schematic_id) ≡ true)
resolve_settings_lem_example =
    resolve_settings_lem size_of decode inputs hardware none settings settings_run

abbrev the_disk : Disk
the_disk = record {
  name = [];
  dev_path = [];
  size = 500;
  transport = codes "sata";
  rotational = false;
  readonly = false;
  cdrom = false;
  model = [];
  serial = [];
  modalias = [];
  uuid = [];
  wwid = [];
  bus_path = [];
}

abbrev deps : Deps
deps = record {
  entries = some (codes "sda" ∷ []);
  dev_root = codes "/dev";
  probe = λ path. ok the_disk;
  eval_symlinks = λ path. none;
  glob = text_eq;
  base_url = λ url. some url;
  versions = λ base. ok (codes "v1.14.2" ∷ []);
  namer = λ kernel mac. err no_such_interface;
  net = netip;
  marshal = λ cfg. ok (codes "links");
  arch = codes "amd64";
}

abbrev decoders : Decoders
decoders = record {
  parse_bytes = size_of;
  selector = decode;
  config = λ text. [];
  hardware = λ text. ok hardware;
  network_ok = λ text. true;
}

-- A machine whose state is the number of things that were written.
abbrev world : World ℕ
world = record {
  image_written = λ n url dev. (ok tt, n + 1);
  efi_index = λ n dev. ok 1;
  meta_found = λ n dev. ok tt;
  node_of = λ n dev index. (ok (dev ++ codes "1"), n);
  args_applied = λ n node args strip. (ok tt, n + 1);
  tag_written = λ n dev doc. (ok tt, n + 1);
}

installs :
    (length (run deps decoders world 0 inputs).steps ≡ 6)
    × ((run deps decoders world 0 inputs).state ≡ 3)
unfolding run carry_out prepare parse_config user_data resolve_settings resolve_disk text_eq
    install_disk_path first_disk first_device resolve_schematic is_schematic resolve_setting_version
    first_version image_tag os_version operating_system annotation trim_space lookup is_full_version
    skip_minor is_bare_minor skip_char skip_number is_suffix reference_of resolve_factory_url merge
    fields has_member join is_space after_digits cut merge_arg execute put_args put_network
    take_step build_plan enumerate probe_all note sort_by_name sort insert choose_disk select_path
    resolve find_path eligible plan_version resolve_version patch_of has_prefix contains atoi
    best_patch plan_network use_kernel_names
installs = (refl, refl)

run_safe_example :
    (((run deps decoders world 0 inputs).steps ≡ [])
      × ((run deps decoders world 0 inputs).state ≡ 0))
    ⊎ ((p : Plan) × (prepare deps decoders inputs ≡ ok p)
        × (false ≡ false)
        × (eligible p.disk ≡ true)
        × All (IsOn world p.disk.dev_path) (run deps decoders world 0 inputs).steps)
run_safe_example = run_safe deps decoders world 0 inputs

run-Refines_example :
    let t = run deps decoders world 0 inputs in
    ((e : Error) × (prepare deps decoders inputs ≡ err e) × (t ≡ at_rest (err e) 0))
    ⊎ ((p : Plan) × (prepare deps decoders inputs ≡ ok p)
        × (((false ≡ true) × (t ≡ at_rest (ok tt) 0))
            ⊎ ((false ≡ false) × Refines world inputs p fresh 0 t)))
run-Refines_example = run-Refines deps decoders world 0 inputs

-- A link to the disk, and none to another.
abbrev links : Text → Option Text
links path = if text_eq path (codes "/dev/disk/by-id/x") then some (codes "/dev/sda") else none

abbrev linked : List Text
linked = [] ∷ codes "/dev/sdb" ∷ codes "/dev/disk/by-id/x" ∷ []

declared_runs : declared_warnings links linked (codes "/dev/sda") ≡ []
unfolding declared_warnings text_eq behind_links
declared_runs = refl

unknown_runs :
    declared_warnings links linked (codes "/dev/sdc") ≡ not_declared (codes "/dev/sdc") ∷ []
unfolding declared_warnings text_eq behind_links
unknown_runs = refl
