-- ===== src/Install/Tests/Production.antt =====
-- talos2disk in its production surroundings, on a host with one disk and a factory that serves v1.14.2.
use actions.Install.Logged.{choice_selector}
use actions.Install.Logged.{choice_path}
use actions.Install.Logged.{choice_source}
use actions.Install.Unknown.{disk_paths}
use actions.Install.Logged.{Line, log_plan, one, many}
use actions.Factory.{is_schematic}
use actions.Text.Paths.{clean_path}
use actions.Text.Paths.{join_path}
use actions.Disks.Prober.{probe_device}
use actions.Text.{trim_right}
use actions.Factory.Client.{client_versions}
use actions.Factory.Client.{do_request}
use actions.Http.{read_limited}
use actions.Http.{content}
use actions.Text.Numbers.{read_nat}
use actions.Install.Wired.{exit_code}
use actions.Install.Run.{carry_out}
use actions.MachineConfig.{parse_config}
use actions.Hardware.{user_data}
use actions.Install.{resolve_settings}
use actions.Install.{resolve_disk}
use actions.MachineConfig.{install_disk_path}
use actions.Hardware.{first_disk}
use actions.Hardware.{first_device}
use actions.Install.{resolve_schematic}
use actions.Install.{resolve_setting_version}
use actions.Install.{first_version}
use actions.MachineConfig.{image_tag}
use actions.Hardware.{os_version}
use actions.Hardware.{operating_system}
use actions.Hardware.{annotation}
use actions.Text.{trim_space}
use actions.Hardware.{lookup}
use actions.Factory.{is_full_version}
use actions.Factory.{skip_minor}
use actions.Factory.{is_bare_minor}
use actions.Factory.{skip_char}
use actions.Factory.{skip_number}
use actions.Factory.{is_suffix}
use actions.Install.{reference_of}
use actions.Install.{resolve_factory_url}
use actions.Kargs.{merge}
use actions.Text.Fields.{fields}
use actions.Text.{has_member}
use actions.Text.{join}
use actions.Text.{is_space}
use actions.Factory.{after_digits}
use actions.Text.{cut}
use actions.Kargs.{merge_arg}
use actions.Install.Run.{execute, at_rest}
use actions.Install.Run.{put_args}
use actions.Install.Run.{put_network}
use actions.Install.Run.{take_step}
use actions.Disks.{enumerate}
use actions.Disks.{probe_all}
use actions.Disks.{note}
use actions.Disks.{sort_by_name}
use actions.Prelude.Sort.{sort}
use actions.Prelude.Sort.{insert}
use actions.Install.Planned.{choose_disk}
use actions.Disks.Select.{select_path}
use actions.Disks.Select.{resolve}
use actions.Disks.Select.{find_path}
use actions.Disks.{eligible}
use actions.Install.Planned.{plan_version}
use actions.Factory.{resolve_version}
use actions.Factory.{patch_of}
use actions.Text.{has_prefix}
use actions.Text.{contains}
use actions.Text.Numbers.{atoi}
use actions.Factory.{best_patch}
use actions.Install.Planned.{plan_network}
use actions.Install.Planned.{use_kernel_names}
use actions.Prelude.{
  List, ◌≡◌, ◌⊎◌, refl, true, false, [], ◌∷◌, ◌++◌, none, some, ok, if◌then◌else◌,
}
use actions.Text.{Text, codes, text_eq}
use actions.Text.Paths.{path_text}
use actions.Disks.{Disk}
use actions.Factory.{image_url}
use actions.Factory.Client.{new_client}
use actions.Install.{Inputs}
use actions.Install.Planned.{Plan, build_plan}
use actions.Install.Run.{prepare, run}
use actions.Install.Wired.{Host, default_deps, real_main}
use actions.Install.Exit.{IsComplete, IsPlanned, real_main_zero, default_plan_lem}
use actions.Net.Sample.{netip}
use actions.Install.Tests.{schematic, inputs, settings, hardware, deps, decoders, world}

exits : real_main (ok inputs) (run deps decoders world 0) ≡ 0
unfolding real_main exit_code run carry_out prepare parse_config user_data resolve_settings
    resolve_disk text_eq install_disk_path first_disk first_device resolve_schematic is_schematic
    resolve_setting_version first_version image_tag os_version operating_system annotation
    trim_space lookup is_full_version skip_minor is_bare_minor skip_char skip_number is_suffix
    reference_of resolve_factory_url merge fields has_member join is_space after_digits cut
    merge_arg execute put_args put_network take_step build_plan enumerate probe_all note
    sort_by_name sort insert choose_disk select_path resolve find_path eligible plan_version
    resolve_version patch_of has_prefix contains atoi best_patch plan_network use_kernel_names
exits = refl

real_main_zero_example :
    (in_ : Inputs) × (p : Plan) × (ok inputs ≡ ok in_)
    × (prepare deps decoders in_ ≡ ok p)
    × (((in_.dry_run ≡ true) × (run deps decoders world 0 in_ ≡ at_rest (ok tt) 0))
        ⊎ ((in_.dry_run ≡ false) × IsComplete world in_ p 0 (run deps decoders world 0 in_)))
real_main_zero_example = real_main_zero deps decoders world 0 (ok inputs) exits

abbrev host : Host
host = record {
  sys = record {
    read_dir =
        λ p. if text_eq (path_text p) (codes "/sys/block") then some (codes "sda" ∷ []) else none;
    read_file = λ p. none;
    eval_symlinks = λ p. none;
  };
  open_device = λ path. some (record {
    size = some 500;
    properties = some (record {
      transport = codes "sata";
      rotational = false;
      model = [];
      serial = [];
      modalias = [];
      uuid = [];
      wwid = [];
      bus_path = [];
    });
    readonly = some false;
    is_cd = false;
  });
  eval_symlinks = λ path. none;
  glob = text_eq;
  parse_url =
      λ url. some (record { scheme = codes "https"; host = codes "factory.talos.dev"; text = url });
  http = record {
    accepts_url = λ url. true;
    get = λ url.
        some
          (record { status = 200; body = record { chunks = codes "v1.14.2" ∷ []; fails = false } });
  };
  decode_versions = λ raw. some (codes "v1.13.9" ∷ raw ∷ []);
  net = netip;
  marshal = λ cfg. ok (codes "links");
  arch = codes "amd64";
}

abbrev the_disk : Disk
the_disk = record {
  name = codes "sda";
  dev_path = codes "/dev/sda";
  size = 500;
  transport = codes "sata";
  rotational = false;
  readonly = false;
  cdrom = false;
  model = [];
  serial = [];
  modalias = [];
  uuid = [];
  wwid = [];
  bus_path = [];
}

abbrev pub planned : Plan
planned = record {
  settings = settings;
  disk = the_disk;
  candidates = the_disk ∷ [];
  schematic_id = schematic;
  version = codes "v1.14.2";
  image =
      codes "https://factory.talos.dev/image/"
      ++ (schematic ++ codes "/v1.14.2/metal-amd64.raw.zst");
  kernel_args = codes "quiet";
  kernel_names = false;
  network_doc = codes "links: []";
}

plans : build_plan (default_deps host) inputs hardware settings ≡ ok planned
unfolding default_deps path_text clean_path join_path probe_device new_client trim_right image_url
    client_versions do_request read_limited content build_plan enumerate probe_all note sort_by_name
    sort insert choose_disk select_path resolve find_path eligible plan_version resolve_version
    patch_of has_prefix contains atoi best_patch plan_network use_kernel_names text_eq join
    trim_space is_full_version skip_minor is_bare_minor skip_char skip_number is_suffix after_digits
    fields has_member is_space read_nat
plans = refl

default_plan_lem_example :
    (base : Text) × (new_client host.parse_url settings.factory_url.0 ≡ ok base)
    × (planned.image ≡ image_url base schematic planned.version (codes "amd64"))
    × IsPlanned host base (codes "v1.14") planned.version
default_plan_lem_example = default_plan_lem host inputs hardware settings planned plans

abbrev rest_of : List Line → List Line
rest_of [] = []
rest_of (line ∷ lines) = lines

logs :
    log_plan inputs planned
    ≡ record {
      message = codes "Plan: install disk";
      attributes =
          (codes "device", one (codes "/dev/sda"))
          ∷ (codes "source", one (codes "spec.disks[0].device"))
          ∷ (codes "selector", one [])
          ∷ (codes "path", one (codes "/dev/sda"))
          ∷ (codes "candidates", many (codes "/dev/sda" ∷ []))
          ∷ [];
    }
      ∷ rest_of (log_plan inputs planned)
unfolding log_plan choice_selector choice_path choice_source disk_paths
logs = refl
