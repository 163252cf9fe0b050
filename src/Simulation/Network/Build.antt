-- ===== src/Simulation/Network/Build.antt =====
-- `derive_mac` and the construction of a `Network` from a document. SHA-256, `str.upper` and
-- pydantic's `model_validate` are parameters.
use Prim.Native.String.{◌++◌}
use networkbasicswebsite.Prelude.{
  ℕ, zero, suc, String, Bool, false, not, ◌||◌, List, [], ◌∷◌, Option, none, some, ◌⊎◌, inl, inr,
  if◌then◌else◌, ◌==◌, nat_eq, string_eq, pair_eq, Dict, lookup, insert, Result, ok, raise,
  validation_error, required, ◌>>=◌,
}
use networkbasicswebsite.Text.{concat}
use networkbasicswebsite.Devices.{
  CableKind, cable_eq, PortEntry, spec_for, interfaces, recommended_cable,
}
use networkbasicswebsite.Config.{InterfaceConfig, DeviceConfig, admin_up}
use networkbasicswebsite.Topology.{Json, TopologyDevice, TopologyLink, TopologyDocument}
use networkbasicswebsite.Simulation.Network.Types.{SimInterface, SimDevice, SimLink, Network}

-- The code that the construction calls and this repository does not hold.
pub record Library : Type 0 where
  -- `hashlib.sha256(text.encode()).hexdigest()`
  pub sha256_hexdigest : String → String
  -- `text.upper()`
  pub upper : String → String
  -- `DeviceConfig.model_validate(config)`: the configuration, or the names of the bad fields
  pub model_validate : Json → List String ⊎ DeviceConfig

first_two : String → String
first_two String.[] = ""
first_two (String.◌∷◌ c String.[]) = String.◌∷◌ c ""
first_two (String.◌∷◌ c (String.◌∷◌ d s)) = String.◌∷◌ c (String.◌∷◌ d "")

skip_two : String → String
skip_two (String.◌∷◌ c (String.◌∷◌ d s)) = s
skip_two _ = ""

-- `count` octets of two characters, each behind a colon
octets : ℕ → String → String
unfolding first_two skip_two
octets zero digest = ""
octets (suc count) digest = ":" ++ (first_two digest ++ octets count (skip_two digest))

unfoldable pub derive_mac : Library → String → String → String
unfolding octets
derive_mac lib device_id interface =
    lib.upper ("02" ++ octets 5 (lib.sha256_hexdigest (concat (device_id ∷ ":" ∷ interface ∷ []))))

-- `x or 1`
or_one : Option ℕ → ℕ
or_one none = 1
or_one (some n) = if n == 0 then 1 else n

build_interface : Library → TopologyDevice → String → Option InterfaceConfig → SimInterface
unfolding derive_mac admin_up or_one
build_interface lib device name none = record {
  device_id = device.id;
  name = name;
  mac = derive_mac lib device.id name;
  enabled = admin_up none device.kind;
  ip = none;
  mask = none;
  dhcp = false;
  switchport_mode = none;
  access_vlan = 1;
  allowed_vlans = [];
  native_vlan = 1;
  acl_in = none;
  acl_out = none;
  nat_side = none;
}
build_interface lib device name (some configured) = record {
  device_id = device.id;
  name = name;
  mac = derive_mac lib device.id name;
  enabled = admin_up (some configured) device.kind;
  ip = configured.ip_address;
  mask = configured.subnet_mask;
  dhcp = configured.dhcp;
  switchport_mode = configured.switchport_mode;
  access_vlan = or_one configured.access_vlan;
  allowed_vlans = configured.allowed_vlans;
  native_vlan = or_one configured.native_vlan;
  acl_in = configured.acl_in;
  acl_out = configured.acl_out;
  nat_side = configured.nat_side;
}

-- The loop over the ports of the catalogue.
build_interfaces :
    Library
    → TopologyDevice
    → DeviceConfig
    → List PortEntry
    → Dict String SimInterface
    → Dict String SimInterface
unfolding build_interface
build_interfaces lib device config [] built = built
build_interfaces lib device config (entry ∷ rest) built = build_interfaces lib device config rest (
    if not entry.connectable
    then built
    else insert entry.name
        (build_interface lib device entry.name (lookup entry.name config.interfaces)) built)

comma_joined : List String → String
comma_joined [] = ""
comma_joined (name ∷ []) = name
comma_joined (name ∷ next ∷ rest) = name ++ (", " ++ comma_joined (next ∷ rest))

unreadable : TopologyDevice → List String → String
unfolding comma_joined
unreadable device [] = concat ("The configuration on " ∷ device.name ∷ " cannot be read" ∷ "." ∷ [])
unreadable device (name ∷ rest) = concat (
    "The configuration on "
    ∷ device.name
    ∷ " cannot be read"
    ∷ " — check: "
    ∷ comma_joined (name ∷ rest)
    ∷ "."
    ∷ [])

unfoldable pub build_device : Library → TopologyDevice → Result SimDevice
unfolding unreadable build_interfaces spec_for interfaces
build_device lib device = elim (lib.model_validate device.config) [
  | inl fields ↦ raise (validation_error (unreadable device fields))
  | inr config ↦ ok (record {
    id = device.id;
    name = device.name;
    kind = device.kind;
    config = config;
    interfaces = build_interfaces lib device config (interfaces (spec_for device.kind)) [];
  })
]

-- `link.cable is expected or link.cable is CableKind.FIBER`
abbrev pub cable_accepted : CableKind → CableKind → Bool
cable_accepted chosen expected = chosen == expected || chosen == CableKind.fiber

unfoldable pub build_link : Dict String SimDevice → TopologyLink → Result SimLink
unfolding recommended_cable
build_link devices link = do
  source ← required (lookup link.source.device_id devices)
  target ← required (lookup link.target.device_id devices)
  ok (record {
    id = link.id;
    a_device = link.source.device_id;
    a_interface = link.source.interface;
    b_device = link.target.device_id;
    b_interface = link.target.interface;
    cable = link.cable;
    enabled = link.enabled;
    cable_ok =
        cable_accepted link.cable
          (recommended_cable source.kind link.source.interface target.kind link.target.interface);
  })

unfoldable pub add_devices :
    Library → List TopologyDevice → Dict String SimDevice → Result (Dict String SimDevice)
add_devices lib [] built = ok built
add_devices lib (device ∷ rest) built = do
  made ← build_device lib device
  add_devices lib rest (insert device.id made built)

-- The body of the loop over the links.
unfoldable pub add_link : Network → TopologyLink → Result Network
add_link net link = do
  made ← build_link net.devices link
  ok (record net {
    links = insert link.id made net.links;
    port_link =
        insert (link.target.device_id, link.target.interface) link.id
          (insert (link.source.device_id, link.source.interface) link.id net.port_link);
  })

unfoldable pub add_links : List TopologyLink → Network → Result Network
add_links [] net = ok net
add_links (link ∷ rest) net = do net' ← add_link net link; add_links rest net'

-- `Network(document)`
unfoldable pub build_network : Library → TopologyDocument → Result Network
unfolding add_devices add_links build_device build_link add_link
build_network lib document = do
  devices ← add_devices lib document.devices []
  add_links document.links (record { devices = devices; links = []; port_link = [] })
