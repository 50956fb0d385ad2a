-- ===== src/Install/Planned.antt =====
-- talos2disk/run.go: buildPlan. The surroundings that it asks are the record `Deps`.
use actions.Prelude.{
  Bool, true, false, not, List, [], ◌∷◌, Option, some, Result, ok, ◌>>=◌, or_err, bad_factory_url,
  if◌then◌else◌,
}
use actions.Text.{Text, codes, text_eq, has_member}
use actions.Text.Fields.{fields}
use actions.Disks.{Disk, enumerate}
use actions.Disks.Select.{select, select_path}
use actions.Hardware.{Hardware}
use actions.Net.{Config}
use actions.Net.Mapping.{Netip, has_static_address}
use actions.Net.Collect.{from_hardware_with}
use actions.Factory.{is_bare_minor, resolve_version, image_url}
use actions.Install.{Inputs, Settings, DiskChoice, by_selector, by_path}

-- Deps, and the packages that buildPlan rests on: the listing of the block devices and the prober,
-- EvalSymlinks, go-glob, url.Parse as NewClient uses it (the base URL, none for a bad one), the
-- versions that the factory serves, the Namers for both modes, and YAML.
pub record Deps : Type 1 where
  pub entries : Option (List Text)
  pub dev_root : Text
  pub probe : Text → Result Disk
  pub eval_symlinks : Text → Option Text
  pub glob : Text → Text → Bool
  pub base_url : Text → Option Text
  pub versions : Text → Result (List Text)
  pub namer : Bool → Text → Result Text
  pub net : Netip
  pub marshal : Config → Result Text
  pub arch : Text

-- What is decided before the first byte is written (`Plan` of the source).
pub record Plan : Type 0 where
  pub settings : Settings
  pub disk : Disk
  pub candidates : List Disk
  pub schematic_id : Text
  pub version : Text
  pub image : Text
  pub kernel_args : Text
  pub kernel_names : Bool
  pub network_doc : Text

-- The version: a bare minor is resolved among what the factory serves.
unfoldable pub plan_version : (Text → Result (List Text)) → Text → Text → Result Text
plan_version versions base version =
    if is_bare_minor version then versions base >>= resolve_version version else ok version

-- Whether the kernel's names are used for links.
unfoldable pub use_kernel_names : Text → Text → Bool
unfolding text_eq has_member fields
use_kernel_names link_naming kernel_args =
    if text_eq link_naming (codes "kernel")
    then true
    else if text_eq link_naming (codes "predictable")
    then false
    else has_member (fields kernel_args) (codes "net.ifnames=0")

module _ (deps : Deps) where
  -- The choice of the disk, with the candidates.
  unfoldable pub choose_disk : List Disk → DiskChoice → Result (Disk × List Disk)
  choose_disk disks (by_selector sel source) = select deps.glob disks sel
  choose_disk disks (by_path path source) =
      select_path deps.eval_symlinks disks path >>= λ d. ok (d, d ∷ [])

  -- The network document: that of the operator, or that of the Hardware, or none.
  unfoldable pub plan_network : Inputs → Hardware → Settings → Bool → Result Text
  plan_network in_ hw settings kernel_names =
      if not (text_eq in_.network_config [])
      then ok in_.network_config
      else if has_static_address (some hw.spec)
      then (from_hardware_with deps.net (deps.namer kernel_names) hw.spec settings.network
          >>= deps.marshal)
      else ok []

  -- buildPlan
  unfoldable pub build_plan : Inputs → Hardware → Settings → Result Plan
  build_plan in_ hw settings = do
    enum ← enumerate deps.dev_root deps.probe deps.entries
    (disk, candidates) ← choose_disk enum.disks settings.disk
    base ← or_err (deps.base_url settings.factory_url.0) bad_factory_url
    version ← plan_version deps.versions base settings.version.0
    let kernel_names = use_kernel_names in_.link_naming settings.kernel_args
    doc ← plan_network in_ hw settings kernel_names
    ok (record {
      settings = settings;
      disk = disk;
      candidates = candidates;
      schematic_id = settings.schematic.0;
      version = version;
      image = image_url base settings.schematic.0 version deps.arch;
      kernel_args = settings.kernel_args;
      kernel_names = kernel_names;
      network_doc = doc;
    })
