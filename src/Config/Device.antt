-- ===== src/Config/Device.antt =====
-- Everything configurable on one device.
use networkbasicswebsite.Prelude.{String, Bool, false, List, [], Option, none, Dict}
use networkbasicswebsite.Config.Interfaces.{InterfaceConfig}
use networkbasicswebsite.Config.Routing.{
  VlanConfig, StaticRoute, OspfConfig, EigrpConfig, RipConfig,
}
use networkbasicswebsite.Config.Services.{DhcpPool, AclConfig, NatRule, WirelessConfig}

pub record DeviceConfig : Type 0 where
  pub hostname : String
  pub enable_secret : Option String
  pub banner_motd : Option String
  pub interfaces : Dict String InterfaceConfig
  pub default_gateway : Option String
  pub dns_servers : List String
  pub dhcp_client : Bool
  pub vlans : List VlanConfig
  pub static_routes : List StaticRoute
  pub ospf : Option OspfConfig
  pub eigrp : Option EigrpConfig
  pub rip : Option RipConfig
  pub dhcp_pools : List DhcpPool
  pub acls : List AclConfig
  pub nat_rules : List NatRule
  pub wireless : Option WirelessConfig
  pub saved : Bool

-- `DeviceConfig()`
abbrev pub default_config : DeviceConfig
default_config = record {
  hostname = "";
  enable_secret = none;
  banner_motd = none;
  interfaces = [];
  default_gateway = none;
  dns_servers = [];
  dhcp_client = false;
  vlans = [];
  static_routes = [];
  ospf = none;
  eigrp = none;
  rip = none;
  dhcp_pools = [];
  acls = [];
  nat_rules = [];
  wireless = none;
  saved = false;
}
