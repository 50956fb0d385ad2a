-- ===== src/Hardware.antt =====
-- pkg/hardware: the Tinkerbell Hardware object as json.Unmarshal fills it, the fields that the other
-- packages read, and its accessors. A nil pointer is none.
pub mod OutOfBand
pub mod Fetch
use actions.Prelude.{Bool, not, List, [], ◌∷◌, Option, none, some, if◌then◌else◌}
use actions.Text.{Text, text_eq, trim_space}
use actions.Hardware.OutOfBand.{Inventory, Attributes, Status}

-- IP
pub record IpAssignment : Type 0 where
  pub address : Text
  pub netmask : Text
  pub gateway : Text

-- ClasslessStaticRoute
pub record StaticRoute : Type 0 where
  pub destination : Text
  pub router : Text

-- DHCP
pub record Dhcp : Type 0 where
  pub mac : Text
  pub hostname : Text
  pub domain_name : Text
  pub name_servers : List Text
  pub time_servers : List Text
  pub iface_name : Text
  pub ip : Option IpAssignment
  pub vlan_id : Text
  pub routes : List StaticRoute

-- Interface
pub record Interface : Type 0 where
  pub dhcp : Option Dhcp
  pub disable_dhcp : Bool

-- InstanceIP
pub record InstanceIp : Type 0 where
  pub address : Text
  pub public : Bool

-- OperatingSystem
pub record OperatingSystem : Type 0 where
  pub slug : Text
  pub version : Text

-- Instance
pub record Instance : Type 0 where
  pub hostname : Text
  pub ips : List InstanceIp
  pub operating_system : Option OperatingSystem

-- Spec; `the_instance` is metadata.instance, none where either is absent.
pub record Spec : Type 0 where
  pub interfaces : List Interface
  pub disks : List Text
  pub the_instance : Option Instance
  pub user_data : Option Text

-- Hardware, with the annotations of its metadata.
pub record Hardware : Type 0 where
  pub annotations : List (Text × Text)
  pub spec : Spec
  pub status : Option Status

-- m[key], empty where it is missing.
unfoldable pub lookup : List (Text × Text) → Text → Text
lookup [] key = []
lookup ((k, v) ∷ m) key = if text_eq k key then v else lookup m key

-- Annotation
unfoldable pub annotation : Hardware → Text → Text
annotation h key = trim_space (lookup h.annotations key)

-- UserData
unfoldable pub user_data : Hardware → Text
user_data h = elim h.spec.user_data [ none ↦ [] | some text ↦ text ]

attributes_of : Option Status → Option Attributes
attributes_of none = none
attributes_of (some status) = status.attributes

inventory_of : Option Attributes → Option Inventory
inventory_of none = none
inventory_of (some attributes) = attributes.out_of_band

-- OutOfBand
unfoldable pub out_of_band : Hardware → Option Inventory
unfolding attributes_of inventory_of
out_of_band h = inventory_of (attributes_of h.status)

-- metadata.instance.operating_system, where every step is there.
unfoldable pub operating_system : Hardware → Option OperatingSystem
operating_system h = elim h.spec.the_instance [ none ↦ none | some i ↦ i.operating_system ]

-- OperatingSystemVersion
unfoldable pub os_version : Hardware → Text
os_version h = elim (operating_system h) [ none ↦ [] | some os ↦ trim_space os.version ]

-- OperatingSystemSlug
unfoldable pub os_slug : Hardware → Text
os_slug h = elim (operating_system h) [ none ↦ [] | some os ↦ trim_space os.slug ]

-- The loop of FirstDisk, over the devices of spec.disks.
unfoldable pub first_device : List Text → Text
first_device [] = []
first_device (device ∷ disks) = if not (text_eq device []) then device else first_device disks

-- FirstDisk
unfoldable pub first_disk : Hardware → Text
first_disk h = first_device h.spec.disks
