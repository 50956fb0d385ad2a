-- ===== src/Net/Mapping.antt =====
-- pkg/talosnet/mapping.go: from Hardware data to a network configuration. The package netip is the
-- interface `Netip`; the Namer is the parameter `name_of`.
use actions.Prelude.{
  ℕ, Bool, true, false, not, List, [], ◌∷◌, ◌++◌, Option, none, some, Result, ok, err, ◌>>=◌,
  or_err, bad_address, bad_vlan, bad_gateway, bad_route, no_link_name, any, if◌then◌else◌,
}
use actions.Text.{Text, codes, text_eq, trim_space, has_member, cut}
use actions.Text.Numbers.{parse_uint, itoa}
use actions.Hardware.{IpAssignment, StaticRoute, Dhcp, Interface, Spec}
use actions.Net.{Address, Link, Route, Config, layer_platform}
use actions.Net.Mask.{prefix_length}

-- What the package uses of net/netip: parsing and printing addresses and prefixes. A prefix is an
-- address and a length.
pub record Netip : Type 1 where
  pub Addr : Type 0
  pub parse_addr : Text → Option Addr
  pub is4 : Addr → Bool
  pub as_slice : Addr → List ℕ
  pub addr_text : Addr → Text
  pub prefix_text : Addr → ℕ → Text
  pub parse_prefix : Text → Option (Addr × ℕ)
  pub masked : Addr → ℕ → Addr

-- Overrides
pub record Overrides : Type 0 where
  pub hostname : Text
  pub nameservers : List Text
  pub time_servers : List Text

-- A value of appendUnique, as it is trimmed, after the others.
unfoldable pub append_one : List Text → Text → List Text
append_one list v =
    if text_eq v [] then list else if has_member list v then list else list ++ v ∷ []

-- appendUnique
unfoldable pub append_unique : List Text → List Text → List Text
append_unique list [] = list
append_unique list (v ∷ values) = append_unique (append_one list (trim_space v)) values

-- splitFQDN
unfoldable pub split_fqdn : Text → Text × Text
split_fqdn name = let c = cut b'.' name in (c.before, c.after)

-- The DHCP data of an interface with a static address.
unfoldable pub static_dhcp : Interface → Option (Dhcp × IpAssignment)
static_dhcp iface = elim iface.dhcp [
  | none ↦ none
  | some d ↦ elim d.ip [
    | none ↦ none
    | some ip ↦ if text_eq ip.address [] then none else some (d, ip)
  ]
]

abbrev pub is_some {ℓ} : {A : Type ℓ} → Option A → Bool
is_some none = false
is_some (some a) = true

abbrev pub is_static : Interface → Bool
is_static iface = is_some (static_dhcp iface)

-- HasStaticAddress
unfoldable pub has_static_address : Option Spec → Bool
has_static_address none = false
has_static_address (some spec) = any is_static spec.interfaces

-- resolveLinkName
unfoldable pub resolve_link_name : (Text → Result Text) → Dhcp → Result Text
resolve_link_name name_of d =
    if not (text_eq d.iface_name [])
    then ok d.iface_name
    else if text_eq d.mac []
    then err no_link_name
    else name_of d.mac

abbrev pub the_link : Text → Link
the_link name = record {
  name = name;
  logical = false;
  up = true;
  kind = [];
  link_type = [];
  parent_name = [];
  vlan = none;
  layer = layer_platform;
}

abbrev pub add_link : Config → Link → Config
add_link cfg link = record cfg { links = cfg.links ++ link ∷ [] }

abbrev pub add_route : Config → Route → Config
add_route cfg route = record cfg { routes = cfg.routes ++ route ∷ [] }

-- The VLAN of an interface, if it has one, and the link that its addresses attach to.
unfoldable pub add_vlan : Config → Text → Text → Result (Text × Config)
add_vlan cfg link_name [] = ok (link_name, cfg)
add_vlan cfg link_name (c ∷ vlan_id) = do
  vid ← or_err (parse_uint 12 (c ∷ vlan_id)) bad_vlan
  let attach_to = link_name ++ (codes "." ++ itoa vid)
  ok (
    attach_to,
    add_link cfg (record {
      name = attach_to;
      logical = true;
      up = true;
      kind = codes "vlan";
      link_type = codes "ether";
      parent_name = link_name;
      vlan = some (record { id = vid; protocol = codes "802.1q" });
      layer = layer_platform;
    }),
  )

module _ (net : Netip) where
  -- familyOf
  abbrev pub family_of : net.Addr → Text
  family_of addr = if net.is4 addr then codes "inet4" else codes "inet6"

  -- familyNumber
  abbrev pub family_number : net.Addr → ℕ
  family_number addr = if net.is4 addr then 4 else 6

  -- defaultRoutePriority
  abbrev pub default_route_priority : net.Addr → ℕ
  default_route_priority addr = if net.is4 addr then 1024 else 2048

  -- The bytes of an address in text: what PrefixLength reads.
  abbrev pub parse_bytes : Text → Option (List ℕ)
  parse_bytes text = elim (net.parse_addr text) [ none ↦ none | some a ↦ some (net.as_slice a) ]

  abbrev pub the_address : net.Addr → ℕ → Text → Address
  the_address addr prefix attach_to = record {
    address = net.prefix_text addr prefix;
    link_name = attach_to;
    family = family_of addr;
    scope = codes "global";
    flags = codes "permanent";
    layer = layer_platform;
  }

  -- The default route, if there is a gateway.
  unfoldable pub add_gateway : Config → net.Addr → Text → Text → Result Config
  add_gateway cfg addr attach_to [] = ok cfg
  add_gateway cfg addr attach_to (c ∷ gateway) = do
    gw ← or_err (net.parse_addr (c ∷ gateway)) bad_gateway
    ok (
        add_route cfg (record {
          family = family_of addr;
          destination = [];
          gateway = net.addr_text gw;
          out_link_name = attach_to;
          table = codes "main";
          priority = default_route_priority addr;
          scope = codes "global";
          route_type = codes "unicast";
          protocol = codes "static";
          layer = layer_platform;
        }))

  -- The loop over the static routes.
  unfoldable pub add_routes : Config → Text → List StaticRoute → Result Config
  add_routes cfg attach_to [] = ok cfg
  add_routes cfg attach_to (r ∷ routes) = do
    (dst, bits) ← or_err (net.parse_prefix r.destination) bad_route
    gw ← or_err (net.parse_addr r.router) bad_route
    add_routes
        (add_route cfg (record {
          family = family_of dst;
          destination = net.prefix_text (net.masked dst bits) bits;
          gateway = net.addr_text gw;
          out_link_name = attach_to;
          table = codes "main";
          priority = 0;
          scope = codes "global";
          route_type = codes "unicast";
          protocol = codes "static";
          layer = layer_platform;
        }))
        attach_to routes

  -- addInterface
  unfoldable pub add_interface : (Text → Result Text) → Config → Dhcp → IpAssignment → Result Config
  add_interface name_of cfg d ip = do
    link_name ← resolve_link_name name_of d
    addr ← or_err (net.parse_addr ip.address) bad_address
    prefix ← prefix_length parse_bytes ip.netmask (family_number addr)
    (attach_to, linked) ← add_vlan (add_link cfg (the_link link_name)) link_name d.vlan_id
    let addressed = record linked {
      addresses = linked.addresses ++ the_address addr prefix attach_to ∷ [];
    }
    routed ← add_gateway addressed addr attach_to ip.gateway
    add_routes routed attach_to d.routes
