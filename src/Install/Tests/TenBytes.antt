-- ===== src/Install/Tests/TenBytes.antt =====
-- An installation on a disk of ten bytes, by an image of eight with an EFI and a META partition.
use actions.Install.Run.{carry_out}
use actions.Install.Run.{execute}
use actions.Install.Run.{put_args}
use actions.Install.Run.{put_network}
use actions.Install.Run.{take_step}
use actions.Http.{content}
use actions.Install.OnDisk.{node_for}
use actions.Install.OnDisk.{tagged_disk}
use actions.Meta.{write_tag}
use actions.Meta.{load}
use actions.Meta.{flush_adv}
use actions.Meta.{write_at}
use actions.MachineConfig.{parse_config}
use actions.Hardware.{user_data}
use actions.Install.{resolve_settings}
use actions.Install.{resolve_disk}
use actions.MachineConfig.{install_disk_path}
use actions.Hardware.{first_disk}
use actions.Hardware.{first_device}
use actions.Install.{resolve_schematic}
use actions.Factory.{is_schematic}
use actions.Install.{resolve_setting_version}
use actions.Install.{first_version}
use actions.MachineConfig.{image_tag}
use actions.Hardware.{os_version}
use actions.Hardware.{operating_system}
use actions.Hardware.{annotation}
use actions.Text.{trim_space}
use actions.Hardware.{lookup}
use actions.Factory.{is_full_version}
use actions.Factory.{skip_minor}
use actions.Factory.{is_bare_minor}
use actions.Factory.{skip_char}
use actions.Factory.{skip_number}
use actions.Factory.{is_suffix}
use actions.Install.{reference_of}
use actions.Install.{resolve_factory_url}
use actions.Kargs.{merge}
use actions.Text.Fields.{fields}
use actions.Text.{has_member}
use actions.Text.{join}
use actions.Text.{is_space}
use actions.Factory.{after_digits}
use actions.Text.{cut}
use actions.Kargs.{merge_arg}
use actions.Install.Planned.{build_plan}
use actions.Disks.{enumerate}
use actions.Disks.{probe_all}
use actions.Disks.{note}
use actions.Disks.{sort_by_name}
use actions.Prelude.Sort.{sort}
use actions.Prelude.Sort.{insert}
use actions.Install.Planned.{choose_disk}
use actions.Disks.Select.{select_path}
use actions.Disks.Select.{resolve}
use actions.Disks.Select.{find_path}
use actions.Disks.{eligible}
use actions.Install.Planned.{plan_version}
use actions.Factory.{resolve_version}
use actions.Factory.{patch_of}
use actions.Text.{has_prefix}
use actions.Text.{contains}
use actions.Text.Numbers.{atoi}
use actions.Factory.{best_patch}
use actions.Install.Planned.{plan_network}
use actions.Install.Planned.{use_kernel_names}
use actions.Factory.{image_url}
use actions.Install.OnDisk.{retried}
use actions.Install.OnDisk.{overlaid}
use actions.Install.OnDisk.{attempt}
use actions.Image.{retry}
use actions.Image.{retry_from}
use actions.Image.{after_attempt}
use actions.Image.Write.{write_image_to}
use actions.Image.Write.{write_answer}
use actions.Image.Write.{copy_from}
use actions.Image.Write.{copy}
use actions.Image.Write.{sync_copied}
use actions.Image.Write.{image_reader}
use actions.Prelude.{
  ◌+◌, ◌≤◌, ◌≡◌, refl, ap, true, false, [], ◌∷◌, Option, none, some, ok, arith, length, leb,
  if◌then◌else◌,
}
use actions.Text.{codes, text_eq}
use actions.Uki.{Bytes}
use actions.Uki.Sample.{optional, headers_of, no_faults}
use actions.Partition.{Table, gpt, locate, find_label}
use actions.Meta.{Region, meta_locate, read_tag}
use actions.Meta.Sample.{pair_lib, pair_laws}
use actions.Install.{Inputs}
use actions.Install.Planned.{Plan}
use actions.Install.Run.{prepare, run}
use actions.Install.OnDisk.{Packages, disk_world, download, metal_network_key}
use actions.Install.Installed.{StartsWithImage, without_document, download_lem, installed_network}
use actions.Install.Tests.{inputs, settings, deps, decoders}
use actions.Install.Tests.Production.{planned}

-- The table of a disk of seven bytes or more.
abbrev parts : Table
parts =
    gpt 1
      (some (record { index = 1; start = 0; last = 1; name = codes "EFI" })
        ∷ some (record { index = 2; start = 2; last = 6; name = codes "META" })
        ∷ [])
      512

abbrev table_of : Bytes → Option Table
table_of disk = if leb 7 (length disk) then some parts else none

abbrev region : Region
region = record { offset = 2; size = 5 }

abbrev packages : Packages
packages = record {
  http = λ k. record {
    accepts_url = λ url. true;
    get = λ url. some (record {
      status = 200;
      body = record { chunks = (9 ∷ 9 ∷ 0 ∷ 5 ∷ []) ∷ (0 ∷ 0 ∷ 0 ∷ 8 ∷ []) ∷ []; fails = false };
    });
  };
  zstd = some;
  target = λ k. record { opens = λ dev. true; takes = λ offset bytes. 4; syncs = true };
  duration = λ k. 1;
  done = λ k. false;
  start = 0;
  table_of = table_of;
  adv = pair_lib;
  machine = record {
    there = λ node t. true;
    look = λ k. 1;
    lag = λ k. 0;
    overslept = λ k. 0;
    eval_symlinks = λ d. none;
    read_file = λ p. none;
    mkdir_all = λ d. false;
    mknod = λ p major minor. ok tt;
  };
  node_start = 0;
  nodes = record { sys_root = []; wait = 0; poll = 0; private_dir = [] };
  pe_file = headers_of optional;
  faults = λ path. no_faults;
  glob = λ pattern. some [];
  mount_fails = false;
  files_of = λ disk node path. none;
  store_files = λ disk node files. disk;
}

abbrev before : Bytes
before = 1 ∷ 1 ∷ 1 ∷ 1 ∷ 1 ∷ 1 ∷ 1 ∷ 1 ∷ 1 ∷ 1 ∷ []

download_runs :
    download packages 0 before (codes "http://f/a.raw.zst") (codes "/dev/sda")
    ≡ (ok tt, 9 ∷ 9 ∷ 0 ∷ 5 ∷ 0 ∷ 0 ∷ 0 ∷ 8 ∷ 1 ∷ 1 ∷ [])
unfolding download retried overlaid attempt retry retry_from after_attempt write_image_to
    write_answer copy_from copy sync_copied image_reader text_eq
download_runs = refl

download_lem_example :
    StartsWithImage packages
      (codes "http://f/a.raw.zst")
      (download packages 0 before (codes "http://f/a.raw.zst") (codes "/dev/sda")).1
download_lem_example =
    download_lem packages 0 before (codes "http://f/a.raw.zst") (codes "/dev/sda")
      (ap (λ z. z.0) download_runs)

-- No kernel arguments, and a document of one byte.
abbrev asked : Inputs
asked = record inputs { kernel_args = []; network_config = codes "x" }

abbrev asked_plan : Plan
asked_plan = record planned {
  settings = record settings { kernel_args = [] };
  kernel_args = [];
  network_doc = codes "x";
}

prepare_runs : prepare deps decoders asked ≡ ok asked_plan
unfolding prepare parse_config user_data resolve_settings resolve_disk text_eq install_disk_path
    first_disk first_device resolve_schematic is_schematic resolve_setting_version first_version
    image_tag os_version operating_system annotation trim_space lookup is_full_version skip_minor
    is_bare_minor skip_char skip_number is_suffix reference_of resolve_factory_url merge fields
    has_member join is_space after_digits cut merge_arg build_plan enumerate probe_all note
    sort_by_name sort insert choose_disk select_path resolve find_path eligible plan_version
    resolve_version patch_of has_prefix contains atoi best_patch plan_network use_kernel_names
    image_url
prepare_runs = refl

installs : (run deps decoders (disk_world packages asked) before asked).result ≡ ok tt
unfolding run carry_out execute put_args put_network take_step prepare parse_config user_data
    resolve_settings resolve_disk text_eq install_disk_path first_disk first_device
    resolve_schematic is_schematic resolve_setting_version first_version image_tag os_version
    operating_system annotation trim_space lookup is_full_version skip_minor is_bare_minor skip_char
    skip_number is_suffix reference_of resolve_factory_url merge fields has_member join is_space
    after_digits cut merge_arg build_plan enumerate probe_all note sort_by_name sort insert
    choose_disk select_path resolve find_path eligible plan_version resolve_version patch_of
    has_prefix contains atoi best_patch plan_network use_kernel_names image_url disk_world download
    retried overlaid attempt retry retry_from after_attempt write_image_to write_answer copy_from
    copy sync_copied image_reader content node_for tagged_disk write_tag meta_locate locate
    find_label load flush_adv write_at
installs = refl

-- What the steps before the tag leave of the disk.
abbrev untagged : Bytes
untagged = (execute (disk_world packages asked) asked (without_document asked_plan) before).state

meta_there : meta_locate (table_of untagged) ≡ ok region
unfolding execute put_args put_network take_step text_eq disk_world download retried overlaid
    attempt retry retry_from after_attempt write_image_to write_answer copy_from copy sync_copied
    image_reader content node_for meta_locate locate find_label load
meta_there = refl

untagged_size : length untagged ≡ 10
unfolding execute put_args put_network take_step text_eq disk_world download retried overlaid
    attempt retry retry_from after_attempt write_image_to write_answer copy_from copy sync_copied
    image_reader content meta_locate locate find_label
untagged_size = refl

untagged_inside : region.offset + region.size ≤ length untagged
untagged_inside = omega (arith, untagged_size)

same_table :
    table_of (run deps decoders (disk_world packages asked) before asked).state ≡ table_of untagged
unfolding run carry_out execute put_args put_network take_step prepare parse_config user_data
    resolve_settings resolve_disk text_eq install_disk_path first_disk first_device
    resolve_schematic is_schematic resolve_setting_version first_version image_tag os_version
    operating_system annotation trim_space lookup is_full_version skip_minor is_bare_minor skip_char
    skip_number is_suffix reference_of resolve_factory_url merge fields has_member join is_space
    after_digits cut merge_arg build_plan enumerate probe_all note sort_by_name sort insert
    choose_disk select_path resolve find_path eligible plan_version resolve_version patch_of
    has_prefix contains atoi best_patch plan_network use_kernel_names image_url disk_world download
    retried overlaid attempt retry retry_from after_attempt write_image_to write_answer copy_from
    copy sync_copied image_reader content node_for tagged_disk write_tag meta_locate locate
    find_label load flush_adv write_at
same_table = refl

installed_network_example :
    read_tag pair_lib table_of
      (run deps decoders (disk_world packages asked) before asked).state
      metal_network_key
    ≡ ok (some (codes "x"))
unfolding text_eq
installed_network_example =
    installed_network packages pair_laws deps decoders before asked asked_plan region prepare_runs
      refl refl meta_there untagged_inside same_table installs
