-- ===== src/Net.antt =====
-- pkg/talosnet/config.go: the platform network configuration document. Marshal and Parse are YAML,
-- which is not modelled.
pub mod Mask
pub mod Mapping
pub mod Unique
pub mod Links
pub mod Collect
pub mod Document
pub mod Sample
mod Tests
use actions.Prelude.{ℕ, Bool, true, false, List, [], ◌∷◌, Option, none, some}
use actions.Text.{Text, codes}

-- Address
pub record Address : Type 0 where
  pub address : Text
  pub link_name : Text
  pub family : Text
  pub scope : Text
  pub flags : Text
  pub layer : Text

-- VLAN
pub record Vlan : Type 0 where
  pub id : ℕ
  pub protocol : Text

-- Link
pub record Link : Type 0 where
  pub name : Text
  pub logical : Bool
  pub up : Bool
  pub kind : Text
  pub link_type : Text
  pub parent_name : Text
  pub vlan : Option Vlan
  pub layer : Text

-- Route
pub record Route : Type 0 where
  pub family : Text
  pub destination : Text
  pub gateway : Text
  pub out_link_name : Text
  pub table : Text
  pub priority : ℕ
  pub scope : Text
  pub route_type : Text
  pub protocol : Text
  pub layer : Text

-- Hostname
pub record Hostname : Type 0 where
  pub hostname : Text
  pub domainname : Text
  pub layer : Text

-- Resolver
pub record Resolver : Type 0 where
  pub dns_servers : List Text
  pub layer : Text

-- TimeServer
pub record TimeServer : Type 0 where
  pub servers : List Text
  pub layer : Text

-- Operator
pub record Operator : Type 0 where
  pub operator : Text
  pub link_name : Text
  pub layer : Text

-- Config
pub record Config : Type 0 where
  pub addresses : List Address
  pub links : List Link
  pub routes : List Route
  pub hostnames : List Hostname
  pub resolvers : List Resolver
  pub time_servers : List TimeServer
  pub operators : List Operator
  pub external_ips : List Text

-- newConfig
abbrev pub new_config : Config
new_config = record {
  addresses = [];
  links = [];
  routes = [];
  hostnames = [];
  resolvers = [];
  time_servers = [];
  operators = [];
  external_ips = [];
}

abbrev pub layer_platform : Text
layer_platform = codes "platform"
