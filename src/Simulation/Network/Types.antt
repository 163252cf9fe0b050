-- ===== src/Simulation/Network/Types.antt =====
-- The dataclasses of backend/app/services/simulation/network.py, and their own methods.
use networkbasicswebsite.Prelude.{
  ℕ, String, Bool, true, false, ◌&&◌, ◌||◌, List, [], ◌∷◌, Option, none, some, if◌then◌else◌, ◌==◌,
  nat_eq, string_eq, option_eq, pair_eq, ◌≡◌, ◌↔◌, elem, Dict, values, Result, ok, ◌>>=◌,
}
use networkbasicswebsite.Text.{present, is_some}
use networkbasicswebsite.Ipv4.{Ipv4Network, parse_address, parse_network, contains}
use networkbasicswebsite.Devices.{DeviceKind, CableKind, spec_for}
use networkbasicswebsite.Config.{SwitchportMode, trunk, NatSide, DeviceConfig}

-- A port of the network: a device id and an interface name.
abbrev pub Port : Type 0
Port = String × String

pub port_beq_iff : (p q : Port) → ((p == q) ≡ true) ↔ (p ≡ q)
port_beq_iff p q = pair_eq.eqb_iff p q

pub record SimInterface : Type 0 where
  pub device_id : String
  pub name : String
  pub mac : String
  pub enabled : Bool
  pub ip : Option String
  pub mask : Option String
  pub dhcp : Bool
  pub switchport_mode : Option SwitchportMode
  pub access_vlan : ℕ
  pub allowed_vlans : List ℕ
  pub native_vlan : ℕ
  pub acl_in : Option String
  pub acl_out : Option String
  pub nat_side : Option NatSide

-- `SimInterface.network`, on the truth of `ip` and `mask`
abbrev pub subnet : Option String → Option String → Result (Option Ipv4Network)
subnet (some ip) (some mask) = do n ← parse_network ip mask; ok (some n)
subnet _ _ = ok none

unfoldable pub network : SimInterface → Result (Option Ipv4Network)
network port = subnet (present port.ip) (present port.mask)

is_empty {ℓ} : {A : Type ℓ} → List A → Bool
is_empty [] = true
is_empty (_ ∷ _) = false

-- `SimInterface.carries_vlan`
unfoldable pub carries_vlan : SimInterface → ℕ → Bool
unfolding is_empty
carries_vlan port vlan = elim port.switchport_mode [
  | some trunk ↦ is_empty port.allowed_vlans || elem vlan port.allowed_vlans
  | _ ↦ port.access_vlan == vlan
]

pub record SimDevice : Type 0 where
  pub id : String
  pub name : String
  pub kind : DeviceKind
  pub config : DeviceConfig
  pub interfaces : Dict String SimInterface

-- `kind in ROUTING_KINDS`
abbrev pub routing_kind : DeviceKind → Bool
routing_kind DeviceKind.router = true
routing_kind DeviceKind.multilayer_switch = true
routing_kind DeviceKind.firewall = true
routing_kind DeviceKind.wireless_router = true
routing_kind DeviceKind.isp = true
routing_kind _ = false

-- `kind in SWITCHING_KINDS`
abbrev pub switching_kind : DeviceKind → Bool
switching_kind DeviceKind.switch = true
switching_kind DeviceKind.multilayer_switch = true
switching_kind DeviceKind.access_point = true
switching_kind _ = false

unfoldable pub routes_ip : SimDevice → Bool
routes_ip device = routing_kind device.kind

unfoldable pub switches_frames : SimDevice → Bool
switches_frames device = switching_kind device.kind

unfoldable pub is_endpoint : SimDevice → Bool
is_endpoint device = (spec_for device.kind).is_endpoint

unfoldable pub first_holding : String → List SimInterface → Option SimInterface
first_holding address [] = none
first_holding address (item ∷ rest) =
    if item.ip == some address then some item else first_holding address rest

-- `SimDevice.interface_holding`
unfoldable pub interface_holding : SimDevice → String → Option SimInterface
interface_holding device address = first_holding address (values device.interfaces)

-- `SimDevice.owns_address`
unfoldable pub owns_address : SimDevice → String → Bool
owns_address device address = is_some (interface_holding device address)

-- `network is not None and wanted in network`
abbrev pub covers : Option Ipv4Network → ℕ → Bool
covers none addr = false
covers (some n) addr = contains n addr

unfoldable pub first_covering : ℕ → List SimInterface → Result (Option SimInterface)
first_covering wanted [] = ok none
first_covering wanted (item ∷ rest) = do
  n ← network item
  elim (covers n wanted) [ true ↦ ok (some item) | false ↦ first_covering wanted rest ]

-- `SimDevice.interface_for_network`
unfoldable pub interface_for_network : SimDevice → String → Result (Option SimInterface)
interface_for_network device target = do
  wanted ← parse_address target
  first_covering wanted (values device.interfaces)

pub record Route : Type 0 where
  pub network : Ipv4Network
  pub source : String
  pub interface : Option String
  pub next_hop : Option String
  pub distance : ℕ

-- `Route.prefix_length`
abbrev pub prefix_length : Route → ℕ
prefix_length route = route.network.prefixlen

pub record SimLink : Type 0 where
  pub id : String
  pub a_device : String
  pub a_interface : String
  pub b_device : String
  pub b_interface : String
  pub cable : CableKind
  pub enabled : Bool
  pub cable_ok : Bool

-- `SimLink.peer`
unfoldable pub peer : SimLink → String → String → Option Port
peer link device_id interface =
    if link.a_device == device_id && link.a_interface == interface
    then some (link.b_device, link.b_interface)
    else if link.b_device == device_id && link.b_interface == interface
    then some (link.a_device, link.a_interface)
    else none

-- `SimLink.usable`
abbrev pub usable : SimLink → Bool
usable link = link.enabled && link.cable_ok

-- `Network`, without `_routing_cache`, the only part that changes after construction
pub record Network : Type 0 where
  pub devices : Dict String SimDevice
  pub links : Dict String SimLink
  pub port_link : Dict Port String
