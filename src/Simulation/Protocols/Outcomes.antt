-- ===== src/Simulation/Protocols/Outcomes.antt =====
-- What the exchanges promise whoever runs them: `Simulator` and `run_simulation`.
use networkbasicswebsite.Prelude.{
  Memᴰ, ℕ, ◌≡◌, ◌≢◌, String, List, nat_eq, string_eq, ok, raise, diverged,
}
use networkbasicswebsite.Simulation.Trace.{SimulationResult}
use networkbasicswebsite.Simulation.Network.{Network}
use networkbasicswebsite.Simulation.Forwarding.Safe.{IsValid, IsSafe}
use networkbasicswebsite.Simulation.Forwarding.Promises.{
  start, start-IsValid, Post-IsValid, Post-result, Post-ne-diverged,
}
use networkbasicswebsite.Simulation.Protocols.Simulate.{Protocol, simulate}
use networkbasicswebsite.Simulation.Protocols.Icmp.{ping}
use networkbasicswebsite.Simulation.Protocols.Dhcp.{dhcp}
use networkbasicswebsite.Simulation.Protocols.Reported.{IsReported}
use networkbasicswebsite.Simulation.Protocols.Reaches.{
  PingMeans, TraceMeans, ping-IsSafe, traceroute-IsSafe,
}
use networkbasicswebsite.Simulation.Protocols.Exchanges.{
  IsResolved, arp-IsSafe, IsNamed, dns-IsSafe,
}
use networkbasicswebsite.Simulation.Protocols.Streams.{TcpMeans, UdpMeans, tcp-IsSafe, udp-IsSafe}
use networkbasicswebsite.Simulation.Protocols.Leases.{IsLeased, dhcp-IsSafe}

-- What the success of an exchange means, and what its summary says then.
abbrev pub Means :
    (String → String)
    → (List String → List String)
    → Network
    → String
    → String
    → ℕ
    → ℕ
    → Protocol
    → String
    → Type 0
Means lower order net source_id destination port count Protocol.ping_protocol =
    PingMeans lower net source_id destination count
Means lower order net source_id destination port count Protocol.traceroute_protocol =
    TraceMeans lower net source_id destination
Means lower order net source_id destination port count Protocol.arp_protocol =
    IsResolved net source_id destination
Means lower order net source_id destination port count Protocol.dhcp_protocol =
    IsLeased order net source_id
Means lower order net source_id destination port count Protocol.dns_protocol =
    IsNamed lower net source_id destination
Means lower order net source_id destination port count Protocol.tcp_protocol =
    TcpMeans lower net source_id destination port
Means lower order net source_id destination port count Protocol.udp_protocol =
    UdpMeans lower net source_id destination port

module _ (lower : String → String) (order : List String → List String) (net : Network)
    (source_id destination : String) where
  simulate-IsSafe :
      (port count : ℕ) (protocol : Protocol)
      → IsSafe net
          (IsReported (Means lower order net source_id destination port count protocol))
          (simulate lower order net source_id destination port count protocol)
  unfolding simulate
  simulate-IsSafe port count Protocol.ping_protocol =
      ping-IsSafe lower net source_id destination count
  simulate-IsSafe port count Protocol.traceroute_protocol =
      traceroute-IsSafe lower net source_id destination
  simulate-IsSafe port count Protocol.arp_protocol = arp-IsSafe net source_id destination
  simulate-IsSafe port count Protocol.dhcp_protocol = dhcp-IsSafe order net source_id
  simulate-IsSafe port count Protocol.dns_protocol = dns-IsSafe lower net source_id destination
  simulate-IsSafe port count Protocol.tcp_protocol = tcp-IsSafe lower net source_id destination port
  simulate-IsSafe port count Protocol.udp_protocol = udp-IsSafe lower net source_id destination port

  -- What any exchange of a new `Simulator` returns: a success has the protocol's meaning, a failure
  -- names its reason, and the events are numbered from 1.
  pub simulate-IsReported :
      (port count : ℕ) (protocol : Protocol) (result : SimulationResult)
      → (simulate lower order net source_id destination port count protocol start).0 ≡ ok result
      → IsReported (Means lower order net source_id destination port count protocol) result
  simulate-IsReported port count protocol result e =
      let run = simulate lower order net source_id destination port count protocol in
      Post-result net _ (run start).0 (run start).1 result
        (simulate-IsSafe port count protocol start (start-IsValid net)) e

  -- Every exchange of a new `Simulator` ends, and leaves its forwarder in a valid state, also where
  -- it raises: the events are numbered, and the caches hold what the network says.
  pub simulate-IsValid :
      (port count : ℕ) (protocol : Protocol)
      → IsValid net (simulate lower order net source_id destination port count protocol start).1
        × ((simulate lower order net source_id destination port count protocol start).0
            ≢ raise diverged)
  simulate-IsValid port count protocol =
      let run = simulate lower order net source_id destination port count protocol in
      let post = simulate-IsSafe port count protocol start (start-IsValid net) in
      (
        Post-IsValid net _ (run start).0 (run start).1 post,
        Post-ne-diverged net _ (run start).0 (run start).1 post,
      )

-- A ping of a new `Simulator` that reports success: the destination resolved; `deliver`, from a valid
-- state, delivered the echo request to a device that owns the target's address; `deliver` delivered an
-- echo reply, of the device at which the request ended (the target's where it has no id), to a device
-- that owns the address that the source is answered at; and the summary tells the count and the
-- request's hops. A ping that reports a failure gives its
-- reason. The events are numbered from 1.
pub ping-IsReported :
    (lower : String → String) (net : Network) (source_id destination : String) (count : ℕ)
    (result : SimulationResult)
    → (ping lower net source_id destination count start).0 ≡ ok result
    → IsReported (PingMeans lower net source_id destination count) result
ping-IsReported lower net source_id destination count result e =
    let run = ping lower net source_id destination count in
    Post-result net _ (run start).0 (run start).1 result
      (ping-IsSafe lower net source_id destination count start (start-IsValid net)) e

-- A lease of a server that has a port in the domain of the client's broadcast.
abbrev pub IsLeasedInDomain : (List String → List String) → Network → String → String → Type 0
IsLeasedInDomain order net source_id summary =
    (lease : IsLeased order net source_id summary) × ((name : String) × Memᴰ (lease.reach.id, name)
        lease.reach.domain)

-- A set is iterated over its own elements only. Then of a DHCP exchange of a new `Simulator` that
-- reports success: the broadcast of the client's first port that is up, in its VLAN, reaches a device
-- that has a pool, and an address in the pool's network on a port that is up; the address offered is
-- the least from the start of the search in that pool that is not the gateway's and lies below the
-- broadcast address, or that start if there is none; and the summary tells the client, the address and
-- the server. One that reports a failure gives its reason. The events are numbered from 1.
pub dhcp-IsReported :
    (order : List String → List String) (net : Network) (source_id : String)
    (result : SimulationResult)
    → ((ids : List String) (id : String) → Memᴰ id (order ids) → Memᴰ id ids)
    → (dhcp order net source_id start).0 ≡ ok result
    → IsReported (IsLeasedInDomain order net source_id) result
dhcp-IsReported order net source_id result own e =
    let run = dhcp order net source_id in
    let reported =
      Post-result net _ (run start).0 (run start).1 result
        (dhcp-IsSafe order net source_id start (start-IsValid net)) e in
    record {
      meant = λ succeeded.
          let lease = reported.meant succeeded in
          let reach = lease.reach in
          (lease, reach.reached reach.id (own reach.ids reach.id reach.asked));
      explained = reported.explained;
      numbered = reported.numbered;
    }
