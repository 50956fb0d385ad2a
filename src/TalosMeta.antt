-- ===== src/TalosMeta.antt =====
-- talosmeta/main.go: the network document and where it comes from, and run. `env` is os.Getenv, which
-- is empty where a variable is not set; the record `Sources` holds what run asks others for.
pub mod Document
mod Tests
use actions.Prelude.{
  Bool, true, false, not, List, [], ◌∷◌, ◌++◌, Option, none, some, Error, Result, ok, err, ◌>>=◌,
  ◌>>◌, guard, no_disk, bad_network_config, bad_link_naming, no_hardware, any, ◌==◌, if◌then◌else◌,
}
use actions.Text.{Text, codes, text_eq}
use actions.Hardware.{Interface, Spec}
use actions.Net.{Config}
use actions.Net.Mapping.{Netip}
use actions.Net.Collect.{from_hardware}

-- talosnet.Parse (whether it accepts a document), the Namers for predictable and for kernel names,
-- json.Unmarshal of a Spec, hardware.Fetch from a base URL, net/netip and Config.Marshal.
pub record Sources : Type 1 where
  pub network_ok : Text → Bool
  pub namer : Bool → Text → Result Text
  pub decode_spec : Text → Result Spec
  pub fetch : Text → Result Spec
  pub net : Netip
  pub marshal : Config → Result Text

-- newNamer: whether the names are predictable.
unfoldable pub new_namer : Text → Result Bool
unfolding text_eq
new_namer mode =
    if text_eq mode []
    then ok true
    else if text_eq mode (codes "predictable")
    then ok true
    else if text_eq mode (codes "kernel")
    then ok false
    else err bad_link_naming

-- net.JoinHostPort
unfoldable pub join_host_port : Text → Text → Text
join_host_port host port =
    if any (λ c. c == b':') host
    then codes "[" ++ (host ++ (codes "]:" ++ port))
    else host ++ (codes ":" ++ port)

-- METADATA_SERVICE_PORT, none where it is not set.
abbrev pub port_of : Option Text → Text
port_of none = codes "7080"
port_of (some port) = port

module _ (src : Sources) (env : Text → Text) (port : Option Text) where
  -- hardwareSpec
  unfoldable pub hardware_spec : Result Spec
  hardware_spec =
      if not (text_eq (env (codes "HARDWARE_SPEC")) [])
      then src.decode_spec (env (codes "HARDWARE_SPEC"))
      else if text_eq (env (codes "MIRROR_HOST")) []
      then err no_hardware
      else src.fetch (codes "http://" ++ join_host_port (env (codes "MIRROR_HOST")) (port_of port))

  -- The error for a Spec without interfaces.
  unfoldable pub some_interface : List Interface → Result (Unit {0})
  some_interface [] = err no_hardware
  some_interface (i ∷ is) = ok tt

  -- The document from the Hardware.
  unfoldable pub from_sources : Result Text
  from_sources = do
    predictable ← new_namer (env (codes "LINK_NAMING"))
    spec ← hardware_spec
    some_interface spec.interfaces
    cfg ← from_hardware src.net (src.namer predictable) spec
    src.marshal cfg

  -- networkDocument
  unfoldable pub network_document : Result Text
  network_document =
      if text_eq (env (codes "NETWORK_CONFIG")) []
      then from_sources
      else if src.network_ok (env (codes "NETWORK_CONFIG"))
      then ok (env (codes "NETWORK_CONFIG"))
      else err bad_network_config

  -- run: meta.Locate and meta.WriteTag are given by their results.
  unfoldable pub run_meta :
      (Text → Result (Unit {0})) → (Text → Text → Result (Unit {0})) → Result (Unit {0})
  run_meta meta_found tag_written = do
    let disk = env (codes "DEST_DISK")
    guard (not (text_eq disk [])) no_disk
    doc ← network_document
    meta_found disk
    tag_written disk doc
