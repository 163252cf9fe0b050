-- ===== src/Config/Services.antt =====
-- Services and policy. Each Literal of the source is an enumeration.
use networkbasicswebsite.Prelude.{ℕ, String, Bool, List, Option}

pub record DhcpPool : Type 0 where
  pub name : String
  pub network : String
  pub mask : String
  pub gateway : Option String
  pub dns_servers : List String
  pub domain_name : Option String
  pub lease_hours : ℕ
  pub excluded_start : Option String
  pub excluded_end : Option String

pub data AclAction : Type 0 where
  permit deny : AclAction

pub data AclProtocol : Type 0 where
  ip tcp udp icmp : AclProtocol

pub data PortOperator : Type 0 where
  eq gt lt neq : PortOperator

pub record AclEntry : Type 0 where
  pub sequence : ℕ
  pub action : AclAction
  pub protocol : AclProtocol
  pub source : String
  pub source_wildcard : Option String
  pub destination : String
  pub destination_wildcard : Option String
  pub destination_port : Option ℕ
  pub port_operator : Option PortOperator

pub data AclKind : Type 0 where
  standard extended : AclKind

pub record AclConfig : Type 0 where
  pub name : String
  pub kind : AclKind
  pub entries : List AclEntry

pub data NatKind : Type 0 where
  static dynamic overload : NatKind

pub record NatRule : Type 0 where
  pub kind : NatKind
  pub inside_local : Option String
  pub inside_global : Option String
  pub access_list : Option String
  pub pool_name : Option String
  pub interface : Option String

pub data WirelessSecurity : Type 0 where
  unsecured wep wpa2_psk wpa3_psk : WirelessSecurity

pub data Band : Type 0 where
  ghz_2_4 ghz_5 : Band

pub record WirelessConfig : Type 0 where
  pub ssid : String
  pub security : WirelessSecurity
  pub passphrase : String
  pub channel : ℕ
  pub band : Band
  pub broadcast_ssid : Bool
