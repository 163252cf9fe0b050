-- ===== src/Config/Interfaces.antt =====
-- One interface's configuration.
use networkbasicswebsite.Prelude.{ℕ, String, Bool, true, false, List, Option, none, some}
use networkbasicswebsite.Devices.{DeviceKind}

pub data SwitchportMode : Type 0 where
  access trunk : SwitchportMode

pub data NatSide : Type 0 where
  inside outside : NatSide

pub record InterfaceConfig : Type 0 where
  pub description : Option String
  pub ip_address : Option String
  pub subnet_mask : Option String
  pub dhcp : Bool
  -- None: never configured
  pub enabled : Option Bool
  pub speed : String
  pub duplex : String
  pub switchport_mode : Option SwitchportMode
  pub access_vlan : Option ℕ
  pub voice_vlan : Option ℕ
  pub native_vlan : Option ℕ
  pub allowed_vlans : List ℕ
  pub nat_side : Option NatSide
  pub acl_in : Option String
  pub acl_out : Option String

-- `device_kind in _PORTS_UP_BY_DEFAULT`
abbrev pub ports_up_by_default : DeviceKind → Bool
ports_up_by_default DeviceKind.switch = true
ports_up_by_default DeviceKind.multilayer_switch = true
ports_up_by_default DeviceKind.access_point = true
ports_up_by_default DeviceKind.cloud = true
ports_up_by_default _ = false

abbrev configured_state : Option InterfaceConfig → Option Bool
configured_state none = none
configured_state (some interface) = interface.enabled

unfoldable pub admin_up : Option InterfaceConfig → DeviceKind → Bool
admin_up interface kind = elim (configured_state interface) [
  | some enabled ↦ enabled
  | none ↦ ports_up_by_default kind
]
