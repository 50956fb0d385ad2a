-- ===== src/Net/Collect.antt =====
-- pkg/talosnet/mapping.go: FromHardwareWithOverrides.
use actions.Prelude.{
  ℕ, ◌+◌, not, ◌||◌, List, [], ◌∷◌, Option, none, some, Result, ok, ◌>>=◌, ◌>>◌, or_err,
  bad_address, no_static_address, guard, ◌==◌, if◌then◌else◌,
}
use actions.Text.{Text, codes, text_eq, contains}
use actions.Hardware.{IpAssignment, Dhcp, Interface, InstanceIp, Instance, Spec}
use actions.Net.{Hostname, Resolver, TimeServer, Config, new_config, layer_platform}
use actions.Net.Mapping.{Netip, Overrides, append_unique, split_fqdn, static_dhcp, add_interface}

-- What the loop over the interfaces has collected.
pub record Collected : Type 0 where
  pub cfg : Config
  pub hostname : Text
  pub domain : Text
  pub name_servers : List Text
  pub time_servers : List Text
  pub configured : ℕ

abbrev pub nothing_yet : Collected
nothing_yet = record {
  cfg = new_config;
  hostname = [];
  domain = [];
  name_servers = [];
  time_servers = [];
  configured = 0;
}

-- `if value == "" { value = other }`
abbrev pub or_else : Text → Text → Text
or_else [] other = other
or_else (c ∷ s) other = c ∷ s

-- `if len(override) > 0 { list = appendUnique(nil, override...) }`
abbrev pub replaced_by : List Text → List Text → List Text
replaced_by list [] = list
replaced_by list (o ∷ override) = append_unique [] (o ∷ override)

-- What is added to the hostname and the domain by the override.
unfoldable pub override_name : Text → Text → Text → Text × Text
unfolding contains
override_name [] hostname domain = (hostname, domain)
override_name (c ∷ s) hostname domain = (c ∷ s, if contains (c ∷ s) (codes ".") then [] else domain)

-- The hostname of the document, if there is one.
unfoldable pub hostnames_of : Text → Text → List Hostname
hostnames_of [] domain = []
hostnames_of (c ∷ s) domain =
    let (host, dom) = split_fqdn (c ∷ s) in
    record { hostname = host; domainname = or_else domain dom; layer = layer_platform } ∷ []

unfoldable pub resolvers_of : List Text → List Resolver
resolvers_of [] = []
resolvers_of (s ∷ servers) = record { dns_servers = s ∷ servers; layer = layer_platform } ∷ []

unfoldable pub time_servers_of : List Text → List TimeServer
time_servers_of [] = []
time_servers_of (s ∷ servers) = record { servers = s ∷ servers; layer = layer_platform } ∷ []

module _ (net : Netip) where
  -- The loop over the addresses of the instance.
  unfoldable pub external_ips : List Text → List InstanceIp → Result (List Text)
  external_ips out [] = ok out
  external_ips out (ip ∷ ips) =
      let skipped = external_ips out ips in
      let added = or_err (net.parse_addr ip.address) bad_address >>= λ addr.
      external_ips (append_unique out (net.addr_text addr ∷ [])) ips in
      if not ip.public || text_eq ip.address [] then skipped else added

  -- The hostname and the external addresses of the instance, if there is one.
  unfoldable pub from_instance : Text → Option Instance → Result (Text × List Text)
  from_instance hostname none = ok (hostname, [])
  from_instance hostname (some inst) = do
    ips ← external_ips [] inst.ips
    ok (or_else inst.hostname hostname, ips)

  module _ (name_of : Text → Result Text) where
    -- One interface with a static address.
    unfoldable pub collect_one : Collected → Dhcp → IpAssignment → Result Collected
    collect_one s d ip = do
      cfg ← add_interface net name_of s.cfg d ip
      ok (record {
        cfg = cfg;
        hostname = or_else s.hostname d.hostname;
        domain = or_else s.domain d.domain_name;
        name_servers = append_unique s.name_servers d.name_servers;
        time_servers = append_unique s.time_servers d.time_servers;
        configured = s.configured + 1;
      })

    -- The loop over the interfaces.
    unfoldable pub collect : Collected → List Interface → Result Collected
    collect s [] = ok s
    collect s (iface ∷ interfaces) = elim (static_dhcp iface) [
      | none ↦ collect s interfaces
      | some (d, ip) ↦ do s1 ← collect_one s d ip; collect s1 interfaces
    ]

    -- FromHardwareWithOverrides
    unfoldable pub from_hardware_with : Spec → Overrides → Result Config
    from_hardware_with spec o = do
      s ← collect nothing_yet spec.interfaces
      guard (not (s.configured == 0)) no_static_address
      (name, ips) ← from_instance s.hostname spec.the_instance
      let (hostname, domain) = override_name o.hostname name s.domain
      let cfg = s.cfg
      ok (record cfg {
        external_ips = ips;
        hostnames = hostnames_of hostname domain;
        resolvers = resolvers_of (replaced_by s.name_servers o.nameservers);
        time_servers = time_servers_of (replaced_by s.time_servers o.time_servers);
      })

    -- FromHardware
    unfoldable pub from_hardware : Spec → Result Config
    from_hardware spec =
        from_hardware_with spec (record { hostname = []; nameservers = []; time_servers = [] })
