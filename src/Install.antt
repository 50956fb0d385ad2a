-- ===== src/Install.antt =====
-- talos2disk/settings.go: the settings of an installation, from the environment, the machine
-- configuration, the Hardware and the defaults, in this order.
pub mod Environment
pub mod Planned
pub mod Run
pub mod Precedence
pub mod Written
pub mod Protocol
pub mod Unknown
pub mod Warned
pub mod Wired
pub mod Logged
pub mod Exit
pub mod OnDisk
pub mod Installed
mod Tests
use actions.Prelude.{
  ℕ, Bool, true, false, not, ◌&&◌, ◌||◌, List, [], ◌∷◌, ◌++◌, Option, none, some, Error, Result, ok,
  err, ◌>>=◌, bad_schematic, no_schematic, not_a_version, no_version, if◌then◌else◌, ◌==◌,
}
use actions.Text.{Text, codes, text_eq, trim_right, join, trim_space}
use actions.Text.Fields.{space}
use actions.Kargs.{merge}
use actions.Disks.Selector.{Selector, Decoded, parse_selector, default_selector}
use actions.Hardware.{Hardware, annotation, os_version, os_slug, first_disk}
use actions.Net.Mapping.{Overrides}
use actions.Factory.{
  InstallerReference, parse_installer_reference, is_full_version, is_bare_minor, is_schematic,
}
use actions.MachineConfig.{MachineConfig, install_disk_path, image_tag}

-- Inputs: the environment variables, parsed. The window is an int64 of nanoseconds, here modulo 2^64.
pub record Inputs : Type 0 where
  pub hardware : Text
  pub schematic_id : Text
  pub talos_version : Text
  pub disk_selector : Text
  pub kernel_args : Text
  pub factory_url : Text
  pub network_config : Text
  pub link_naming : Text
  pub strip_signature : Bool
  pub retry_window : ℕ
  pub dry_run : Bool

-- DiskChoice: a selector or a path.
pub data DiskChoice : Type 0 where
  by_selector : Selector → Text → DiskChoice
  by_path : Text → Text → DiskChoice

-- Settings
pub record Settings : Type 0 where
  pub disk : DiskChoice
  pub schematic : Text × Text
  pub version : Text × Text
  pub factory_url : Text × Text
  pub kernel_args : Text
  pub network : Overrides

abbrev pub selector_of_config : Option MachineConfig → Text
selector_of_config none = []
selector_of_config (some c) = c.disk_selector

module _ (parse_bytes : Text → Option ℕ) (decode : Text → Decoded) where
  -- resolveDisk
  unfoldable pub resolve_disk : Inputs → Hardware → Option MachineConfig → Result DiskChoice
  resolve_disk in_ hw cfg =
      if not (text_eq in_.disk_selector [])
      then (parse_selector parse_bytes decode in_.disk_selector >>= λ sel.
          ok (by_selector sel (codes "DISK_SELECTOR")))
      else if not (text_eq (selector_of_config cfg) [])
      then (parse_selector parse_bytes decode (selector_of_config cfg) >>= λ sel.
          ok (by_selector sel (codes "machine.install.diskSelector")))
      else if not (text_eq (install_disk_path cfg) [])
      then ok (by_path (install_disk_path cfg) (codes "machine.install.disk"))
      else if not (text_eq (first_disk hw) [])
      then ok (by_path (first_disk hw) (codes "spec.disks[0].device"))
      else (default_selector parse_bytes decode >>= λ sel. ok (by_selector sel (codes "default")))

abbrev pub install_image : Text
install_image = codes "machine.install.image"

-- The parts of the installer reference, empty where there is none.
abbrev pub no_reference : InstallerReference
no_reference = record { host = []; id = []; tag = [] }

unfoldable pub reference_of : Option MachineConfig → InstallerReference
reference_of none = no_reference
reference_of (some c) = elim (parse_installer_reference c.image) [
  | none ↦ no_reference
  | some ref ↦ ref
]

-- resolveSchematic
unfoldable pub resolve_schematic : Inputs → Hardware → InstallerReference → Result (Text × Text)
resolve_schematic in_ hw ref =
    if not (text_eq in_.schematic_id [])
    then (if not (is_schematic in_.schematic_id)
        then err bad_schematic
        else ok (in_.schematic_id, codes "SCHEMATIC_ID"))
    else if not (text_eq ref.id [])
    then ok (ref.id, install_image)
    else if not (text_eq (os_slug hw) [])
    then ok (os_slug hw, codes "metadata.instance.operating_system.slug")
    else err no_schematic

-- The loop of resolveVersion: the first candidate that is not empty decides.
unfoldable pub first_version : List (Text × Text) → Result (Text × Text)
first_version [] = err no_version
first_version ((value, source) ∷ candidates) =
    let rest = first_version candidates in
    if text_eq value []
    then rest
    else if not (is_full_version value) && not (is_bare_minor value)
    then err not_a_version
    else ok (value, source)

abbrev pub contract : Text
contract = codes "talos.tinkerbell.org/contract"

-- The candidates of resolveVersion.
abbrev pub version_candidates : Inputs → Hardware → Option MachineConfig → List (Text × Text)
version_candidates in_ hw cfg =
    (in_.talos_version, codes "TALOS_VERSION")
    ∷ (image_tag cfg, install_image)
    ∷ (os_version hw, codes "metadata.instance.operating_system.version")
    ∷ (annotation hw contract, contract)
    ∷ []

-- resolveVersion
unfoldable pub resolve_setting_version :
    Inputs → Hardware → Option MachineConfig → Result (Text × Text)
resolve_setting_version in_ hw cfg = first_version (version_candidates in_ hw cfg)

-- resolveFactoryURL
unfoldable pub resolve_factory_url : Inputs → InstallerReference → Text × Text
unfolding trim_right
resolve_factory_url in_ ref =
    if not (text_eq in_.factory_url [])
    then (trim_right (λ c. c == b'/') in_.factory_url, codes "FACTORY_URL")
    else if not (text_eq ref.host [])
    then (codes "https://" ++ ref.host, install_image)
    else (codes "https://factory.talos.dev", codes "default")

abbrev pub config_args : Option MachineConfig → Text
config_args none = []
config_args (some c) = join c.extra_kernel_args space

abbrev pub config_overrides : Option MachineConfig → Overrides
config_overrides none = record { hostname = []; nameservers = []; time_servers = [] }
config_overrides (some c) = record {
  hostname = c.hostname;
  nameservers = c.nameservers;
  time_servers = c.servers;
}

-- resolveSettings
unfoldable pub resolve_settings :
    (Text → Option ℕ)
    → (Text → Decoded)
    → Inputs
    → Hardware
    → Option MachineConfig
    → Result Settings
resolve_settings parse_bytes decode in_ hw cfg = do
  disk ← resolve_disk parse_bytes decode in_ hw cfg
  let ref = reference_of cfg
  schematic ← resolve_schematic in_ hw ref
  version ← resolve_setting_version in_ hw cfg
  ok (record {
    disk = disk;
    schematic = schematic;
    version = version;
    factory_url = resolve_factory_url in_ ref;
    kernel_args = merge (config_args cfg) in_.kernel_args;
    network = config_overrides cfg;
  })
