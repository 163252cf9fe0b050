-- ===== src/Simulation/Samples.antt =====
-- A small network for the examples: two hosts and a router's port on a switch in VLAN 10; two
-- routers that run OSPF; and a layer 3 switch with OSPF on the first of them.
use networkbasicswebsite.Prelude.{String, true, false, List, [], ◌∷◌, Option, none, some, Dict}
use networkbasicswebsite.Devices.{DeviceKind, CableKind}
use networkbasicswebsite.Config.{SwitchportMode, access, DhcpPool, DeviceConfig, default_config}
use networkbasicswebsite.Simulation.Network.{SimInterface, SimDevice, SimLink, Network}

abbrev pub port_at : String → String → String → Option String → Option SwitchportMode → SimInterface
port_at device_id name mac ip mode = record {
  device_id = device_id;
  name = name;
  mac = mac;
  enabled = true;
  ip = ip;
  mask = some "255.255.255.0";
  dhcp = false;
  switchport_mode = mode;
  access_vlan = 10;
  allowed_vlans = [];
  native_vlan = 1;
  acl_in = none;
  acl_out = none;
  nat_side = none;
}

abbrev named : List SimInterface → Dict String SimInterface
named [] = []
named (port ∷ rest) = (port.name, port) ∷ named rest

abbrev device_at : String → DeviceKind → DeviceConfig → List SimInterface → SimDevice
device_at id kind config ports = record {
  id = id;
  name = id;
  kind = kind;
  config = config;
  interfaces = named ports;
}

abbrev ospf_config : DeviceConfig
ospf_config = record default_config {
  ospf = some (record {
    process_id = 1;
    router_id = none;
    networks = (record { network = "10.0.0.0"; wildcard = "0.0.255.255"; area = 0 }) ∷ [];
    passive_interfaces = [];
  });
}

abbrev pub pc1_port : SimInterface
pc1_port = port_at "pc1" "e0" "02:01" (some "10.0.0.11") none

abbrev pub pc1 : SimDevice
pc1 =
    device_at "pc1" DeviceKind.pc (record default_config { default_gateway = some "10.0.0.1" })
      (pc1_port ∷ [])

abbrev pub pc2 : SimDevice
pc2 =
    device_at "pc2" DeviceKind.pc default_config
      (port_at "pc2" "e0" "02:02" (some "10.0.0.12") none ∷ [])

abbrev pub sw1 : SimDevice
sw1 = device_at "sw1" DeviceKind.switch default_config (
    port_at "sw1" "f1" "02:03" none (some access)
    ∷ port_at "sw1" "f2" "02:04" none (some access)
    ∷ port_at "sw1" "f3" "02:05" none (some access)
    ∷ [])

abbrev pub r1 : SimDevice
r1 = device_at "r1" DeviceKind.router ospf_config (
    port_at "r1" "g0" "02:06" (some "10.0.0.1") none
    ∷ port_at "r1" "g1" "02:07" (some "10.0.1.1") none
    ∷ port_at "r1" "g2" "02:08" (some "10.0.2.1") none
    ∷ [])

abbrev r2 : SimDevice
r2 = device_at "r2" DeviceKind.router ospf_config (
    port_at "r2" "g0" "02:09" (some "10.0.1.2") none
    ∷ port_at "r2" "g1" "02:0A" (some "10.0.3.1") none
    ∷ [])

abbrev pub ml1 : SimDevice
ml1 =
    device_at "ml1" DeviceKind.multilayer_switch ospf_config
      (port_at "ml1" "g0" "02:0B" (some "10.0.2.2") none ∷ [])

abbrev cable : String → String → String → String → String → SimLink
cable id a i b j = record {
  id = id;
  a_device = a;
  a_interface = i;
  b_device = b;
  b_interface = j;
  cable = CableKind.straight_through;
  enabled = true;
  cable_ok = true;
}

abbrev pub office : Network
office = record {
  devices =
      ("pc1", pc1) ∷ ("pc2", pc2) ∷ ("sw1", sw1) ∷ ("r1", r1) ∷ ("r2", r2) ∷ ("ml1", ml1) ∷ [];
  links =
      ("l1", cable "l1" "pc1" "e0" "sw1" "f1")
      ∷ ("l2", cable "l2" "pc2" "e0" "sw1" "f2")
      ∷ ("l3", cable "l3" "r1" "g0" "sw1" "f3")
      ∷ ("l4", cable "l4" "r1" "g1" "r2" "g0")
      ∷ ("l5", cable "l5" "r1" "g2" "ml1" "g0")
      ∷ [];
  port_link =
      (("pc1", "e0"), "l1")
      ∷ (("sw1", "f1"), "l1")
      ∷ (("pc2", "e0"), "l2")
      ∷ (("sw1", "f2"), "l2")
      ∷ (("r1", "g0"), "l3")
      ∷ (("sw1", "f3"), "l3")
      ∷ (("r1", "g1"), "l4")
      ∷ (("r2", "g0"), "l4")
      ∷ (("r1", "g2"), "l5")
      ∷ (("ml1", "g0"), "l5")
      ∷ [];
}

-- A pool that excludes everything up to its ninth address, which is the gateway's.
abbrev pub small_pool : DhcpPool
small_pool = record {
  name = "lan";
  network = "10.0.0.0";
  mask = "255.255.255.0";
  gateway = some "10.0.0.10";
  dns_servers = "10.0.0.1" ∷ [];
  domain_name = none;
  lease_hours = 24;
  excluded_start = none;
  excluded_end = some "10.0.0.9";
}

-- The same pool where everything is excluded.
abbrev pub full_pool : DhcpPool
full_pool = record small_pool { excluded_end = some "10.0.0.254" }

abbrev pub c1_port : SimInterface
c1_port = port_at "c1" "e0" "02:11" none none

abbrev pub c1 : SimDevice
c1 = device_at "c1" DeviceKind.pc default_config (c1_port ∷ [])

abbrev pub gw : SimDevice
gw =
    device_at "gw" DeviceKind.router (record default_config { dhcp_pools = small_pool ∷ [] })
      (port_at "gw" "g0" "02:12" (some "10.0.0.1") none ∷ [])

-- A client on a router that serves the pool.
abbrev pub lan : Network
lan = record {
  devices = ("c1", c1) ∷ ("gw", gw) ∷ [];
  links = ("l1", cable "l1" "c1" "e0" "gw" "g0") ∷ [];
  port_link = (("c1", "e0"), "l1") ∷ (("gw", "g0"), "l1") ∷ [];
}
