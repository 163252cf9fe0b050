-- ===== src/Simulation/Protocols/Simulate.antt =====
-- backend/app/api/v1/endpoints/simulation.py: `run_simulation`, one exchange over the network of a
-- posted document. The checks of the request's fields by pydantic are not modelled.
use networkbasicswebsite.Prelude
use networkbasicswebsite.Prelude.{
  ℕ, String, Bool, true, false, not, ◌&&◌, List, [], ◌∷◌, ◌⊎◌, inl, inr, if◌then◌else◌, ◌==◌,
  string_eq, Result, ok, raise, Dict,
}
use networkbasicswebsite.Text.{strip}
use networkbasicswebsite.Topology.{TopologyDevice, TopologyDocument}
use networkbasicswebsite.Simulation.Trace.{SimulationResult}
use networkbasicswebsite.Simulation.Network.{Library, Network, build_network}
use networkbasicswebsite.Simulation.Forwarding.{M}
use networkbasicswebsite.Simulation.Forwarding.Promises.{start}
use networkbasicswebsite.Simulation.Protocols.Icmp.{ping, traceroute, arp}
use networkbasicswebsite.Simulation.Protocols.Dhcp.{dhcp}
use networkbasicswebsite.Simulation.Protocols.Dns.{dns}
use networkbasicswebsite.Simulation.Protocols.Transport.{tcp, udp}

pub data Protocol : Type 0 where
  ping_protocol : Protocol
  traceroute_protocol : Protocol
  arp_protocol : Protocol
  dhcp_protocol : Protocol
  dns_protocol : Protocol
  tcp_protocol : Protocol
  udp_protocol : Protocol

pub record SimulationRequest : Type 0 where
  pub document : TopologyDocument
  pub source_device_id : String
  pub protocol : Protocol
  pub destination : String
  pub port : ℕ
  pub count : ℕ

-- The exceptions that the endpoint itself raises.
pub data Refusal : Type 0 where
  -- NotFoundError
  not_found : String → Refusal
  -- ValidationError
  invalid : String → Refusal

abbrev pub is_dhcp : Protocol → Bool
is_dhcp Protocol.dhcp_protocol = true
is_dhcp _ = false

unfoldable pub has_device : String → List TopologyDevice → Bool
has_device id [] = false
has_device id (device ∷ rest) = if device.id == id then true else has_device id rest

-- The `match` on the protocol. `lower` is `str.lower`, `order` the order of a set's elements.
unfoldable pub simulate :
    (String → String)
    → (List String → List String)
    → Network
    → String
    → String
    → ℕ
    → ℕ
    → Protocol
    → M SimulationResult
simulate lower order net source_id destination port count Protocol.ping_protocol =
    ping lower net source_id destination count
simulate lower order net source_id destination port count Protocol.traceroute_protocol =
    traceroute lower net source_id destination
simulate lower order net source_id destination port count Protocol.arp_protocol =
    arp net source_id destination
simulate lower order net source_id destination port count Protocol.dhcp_protocol =
    dhcp order net source_id
simulate lower order net source_id destination port count Protocol.dns_protocol =
    dns lower net source_id destination
simulate lower order net source_id destination port count Protocol.tcp_protocol =
    tcp lower net source_id destination port
simulate lower order net source_id destination port count Protocol.udp_protocol =
    udp lower net source_id destination port

abbrev pub simulate_request :
    (String → String)
    → (List String → List String)
    → SimulationRequest
    → Network
    → Result SimulationResult
simulate_request lower order request net =
    (simulate lower order net request.source_device_id (strip request.destination) request.port
      request.count request.protocol start).0

-- `run_simulation`
unfoldable pub run_simulation :
    Library
    → (String → String)
    → (List String → List String)
    → SimulationRequest
    → Refusal ⊎ Result SimulationResult
run_simulation lib lower order request =
    if not (has_device request.source_device_id request.document.devices)
    then inl (not_found "That device is not in this topology.")
    else if not (is_dhcp request.protocol) && strip request.destination == ""
    then inl (invalid "A destination is required for this protocol.")
    else inr
        (Prelude.◌>>=◌ (build_network lib request.document) (simulate_request lower order request))
