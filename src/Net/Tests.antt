-- ===== src/Net/Tests.antt =====
-- The network configuration of a machine with one VLAN.
use actions.Text.Numbers.{atoi, parse_uint}
use actions.Prelude.{
  ℕ, ◌<◌, ◌≡◌, refl, true, false, ◌||◌, List, [], ◌∷◌, Option, none, some, Result, ok, err, filter,
  length, no_such_interface, no_static_address,
}
use actions.Text.{Text, codes, text_eq, has_member, trim_space}
use actions.Hardware.{Dhcp, Spec}
use actions.Net.Sample.{netip}
use actions.Net.{Config}
use actions.Net.Mask.{prefix_length, mask_length, check_prefix, mask_prefix, trim_slash}
use actions.Net.Mapping.{
  Overrides, is_static, append_unique, has_static_address, add_gateway, add_interface, add_routes,
  add_vlan, resolve_link_name, static_dhcp,
}
use actions.Net.Collect.{from_hardware_with, collect, collect_one, from_instance}
use actions.Net.Links.{IsLinked}
use actions.Net.Document.{from_hardware_with-IsLinked, from_hardware_with_none}
use actions.Net.Unique.{distinct, given, append_unique_lem}

abbrev eth0 : Dhcp
eth0 = record {
  mac = codes "00:11";
  hostname = codes "node";
  domain_name = [];
  name_servers = codes "8.8.8.8" ∷ [];
  time_servers = [];
  iface_name = codes "eth0";
  ip =
      some
        (record { address = codes "10.0.0.2"; netmask = codes "/24"; gateway = codes "10.0.0.1" });
  vlan_id = codes "7";
  routes = [];
}

abbrev spec : Spec
spec = record {
  interfaces = record { dhcp = some eth0; disable_dhcp = false } ∷ [];
  disks = [];
  the_instance = none;
  user_data = none;
}

abbrev bare : Spec
bare = record {
  interfaces = record { dhcp = none; disable_dhcp = true } ∷ [];
  disks = [];
  the_instance = none;
  user_data = none;
}

abbrev no_overrides : Overrides
no_overrides = record { hostname = []; nameservers = []; time_servers = [] }

abbrev namer : Text → Result Text
namer mac = err no_such_interface

abbrev config_of : Result Config → Config → Config
config_of (ok cfg) other = cfg
config_of (err e) other = other

abbrev made : Config
made = config_of (from_hardware_with netip namer spec no_overrides) (record {
  addresses = [];
  links = [];
  routes = [];
  hostnames = [];
  resolvers = [];
  time_servers = [];
  operators = [];
  external_ips = [];
})

spec_runs : from_hardware_with netip namer spec no_overrides ≡ ok made
unfolding from_hardware_with collect static_dhcp text_eq collect_one add_interface resolve_link_name
    prefix_length trim_slash trim_space atoi check_prefix add_vlan parse_uint add_gateway add_routes
    from_instance
spec_runs = refl

from_hardware_with-IsLinked_example :
    IsLinked made
    × (length made.addresses ≡ length (filter is_static spec.interfaces))
    × (0 < length made.addresses)
from_hardware_with-IsLinked_example =
    from_hardware_with-IsLinked netip namer spec no_overrides made spec_runs

from_hardware_with_none_example :
    from_hardware_with netip namer bare no_overrides ≡ err no_static_address
unfolding has_static_address static_dhcp
from_hardware_with_none_example = from_hardware_with_none netip namer bare no_overrides refl

abbrev no_address : Text → Option (List ℕ)
no_address text = none

abbrev quad : Text → Option (List ℕ)
quad text = some (255 ∷ 255 ∷ 240 ∷ 0 ∷ [])

mask_runs : prefix_length quad (codes " 255.255.240.0") 4 ≡ ok 20
unfolding prefix_length text_eq trim_slash trim_space atoi mask_prefix mask_length
mask_runs = refl

append_unique_lem_example :
    (distinct (append_unique (codes "a" ∷ []) (codes " a" ∷ codes "b" ∷ [])) ≡ true)
    × (has_member (append_unique (codes "a" ∷ []) (codes " a" ∷ codes "b" ∷ [])) (codes "b") ≡ (
        has_member (codes "a" ∷ []) (codes "b") || given (codes " a" ∷ codes "b" ∷ []) (codes "b")))
unfolding has_member
append_unique_lem_example =
    append_unique_lem (codes " a" ∷ codes "b" ∷ []) (codes "a" ∷ []) (codes "b") refl
