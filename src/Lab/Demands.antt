-- ===== src/Lab/Demands.antt =====
-- What each kind of rule demands of the network.
use networkbasicswebsite.Prelude.{
  ℕ, ◌≡◌, ◌≤◌, String, Bool, true, false, List, Option, none, some, Memᴰ, string_eq, option_eq,
  values, ok,
}
use networkbasicswebsite.Text.{present, strip}
use networkbasicswebsite.Ipv4.{Ipv4Network, parse_address, parse_network, contains, network_beq}
use networkbasicswebsite.Config.{access, StaticRoute, DhcpPool}
use networkbasicswebsite.Simulation.Trace.{SimulationResult}
use networkbasicswebsite.Simulation.Network.{SimInterface, SimDevice, SimLink, usable, Network}
use networkbasicswebsite.Simulation.Forwarding.{M}
use networkbasicswebsite.Simulation.Forwarding.Fresh.{IsRun}
use networkbasicswebsite.Simulation.Protocols.{ping, dns, tcp, dhcp}
use networkbasicswebsite.Simulation.Protocols.Reaches.{PingMeans}
use networkbasicswebsite.Simulation.Protocols.Exchanges.{IsNamed}
use networkbasicswebsite.Simulation.Protocols.Streams.{TcpMeans}
use networkbasicswebsite.Simulation.Protocols.Leases.{IsLeased}
use networkbasicswebsite.Lab.Rules.{Check}
use networkbasicswebsite.Lab.Find.{find_device, find_interface, parse_subnet}
use networkbasicswebsite.Lab.Settings.{candidates}
use networkbasicswebsite.Lab.Tables.{kind_count, joins}
use networkbasicswebsite.Lab.Traffic.{default_count}

-- The interface has the address, the mask and the state, as far as the rule asks for them.
pub record IsConfigured (address mask : Option String) (enabled : Option Bool) (port : SimInterface)
    : Type 0 where
  pub has_address : (a : String) → address ≡ some a → port.ip ≡ some a
  pub has_any : address ≡ none → (ip : String) × (present port.ip ≡ some ip)
  pub has_mask : (m : String) → mask ≡ some m → port.mask ≡ some m
  pub has_state : (b : Bool) → enabled ≡ some b → port.enabled ≡ b

-- The interface's address lies in the network.
pub record IsInside (n : Ipv4Network) (port : SimInterface) : Type 0 where
  pub ip : String
  pub has_ip : present port.ip ≡ some ip
  pub address : ℕ
  pub reads : parse_address ip ≡ ok address
  pub inside : contains n address ≡ true

-- A route of the device leads to the network, over the wanted hop if one is given.
pub record IsRouted (device : SimDevice) (n : Ipv4Network) (next_hop : Option String) : Type 0 where
  pub route : StaticRoute
  pub configured : Memᴰ route device.config.static_routes
  pub target : Ipv4Network
  pub reads : parse_network route.network route.mask ≡ ok target
  pub same : network_beq target n ≡ true
  pub hop : (h : String) → present next_hop ≡ some h → route.next_hop ≡ some h

-- A pool of the device covers the network.
pub record IsPooled (device : SimDevice) (n : Ipv4Network) : Type 0 where
  pub pool : DhcpPool
  pub configured : Memᴰ pool device.config.dhcp_pools
  pub target : Ipv4Network
  pub reads : parse_network pool.network pool.mask ≡ ok target
  pub same : network_beq target n ≡ true

-- A usable cable joins the two devices.
pub record IsCabled (net : Network) (a b : SimDevice) : Type 0 where
  pub link : SimLink
  pub known : Memᴰ link (values net.links)
  pub ends : joins a.id b.id link ≡ true
  pub works : usable link ≡ true

module _ (lower : String → String) (order : List String → List String) (net : Network) where
  -- The device that the rule names, with a property.
  abbrev pub OfDevice : String → (SimDevice → Type 0) → Type 0
  OfDevice reference D =
      (device : SimDevice) × (find_device lower net reference ≡ some device) × D device

  abbrev pub OfInterface : String → String → (SimInterface → Type 0) → Type 0
  OfInterface reference name D =
      OfDevice reference
        λ device. (port : SimInterface) × (find_interface lower device name ≡ some port) × D port

  -- The exchange, run on a new forwarder, is a success, and its summary means this.
  abbrev pub Succeeds : M SimulationResult → (String → Type 0) → Type 0
  Succeeds run Meant =
      (result : SimulationResult) × IsRun net run result
      × (result.success ≡ true)
      × Meant result.summary

  -- What a passed rule says of the network.
  abbrev pub Demands : Check → Type 0
  Demands (Check.ping_rule source destination) = OfDevice source λ device.
      Succeeds (ping lower net device.id destination default_count)
        (PingMeans lower net device.id destination default_count)
  Demands (Check.no_ping_rule source destination) = OfDevice source λ device.
      (result : SimulationResult) × IsRun net (ping lower net device.id destination default_count)
        result
      × (result.success ≡ false)
  Demands (Check.dns_rule source hostname) =
      OfDevice source
        λ device. Succeeds (dns lower net device.id hostname) (IsNamed lower net device.id hostname)
  Demands (Check.port_rule source destination port) = OfDevice source λ device.
      Succeeds (tcp lower net device.id destination port)
        (TcpMeans lower net device.id destination port)
  Demands (Check.dhcp_lease_rule source) =
      OfDevice source λ device. Succeeds (dhcp order net device.id) (IsLeased order net device.id)
  Demands (Check.interface_address_rule reference name address mask enabled) =
      OfInterface reference name (IsConfigured address mask enabled)
  Demands (Check.in_subnet_rule reference name network) = OfDevice reference λ device.
      (n : Ipv4Network) × (parse_subnet network ≡ ok n)
      × ((port : SimInterface) × Memᴰ port (candidates lower device name) × IsInside n port)
  Demands (Check.gateway_rule reference gateway) =
      OfDevice reference λ device. device.config.default_gateway ≡ some gateway
  Demands (Check.hostname_rule reference hostname) =
      OfDevice reference λ device. lower (strip device.config.hostname) ≡ lower (strip hostname)
  Demands (Check.static_route_rule reference network next_hop) =
      OfDevice reference
        λ device. (n : Ipv4Network) × (parse_subnet network ≡ ok n) × IsRouted device n next_hop
  Demands (Check.vlan_rule reference name vlan) =
      OfInterface reference name
        λ port. (port.switchport_mode ≡ some access) × (port.access_vlan ≡ vlan)
  Demands (Check.dhcp_pool_rule reference network) =
      OfDevice reference
        λ device. (n : Ipv4Network) × (parse_subnet network ≡ ok n) × IsPooled device n
  Demands (Check.device_count_rule kind minimum maximum) =
      (minimum ≤ kind_count kind net) × ((m : ℕ) → maximum ≡ some m → kind_count kind net ≤ m)
  Demands (Check.link_rule source destination) =
      OfDevice source λ a. OfDevice destination λ b. IsCabled net a b
