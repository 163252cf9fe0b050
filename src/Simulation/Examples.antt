-- ===== src/Simulation/Examples.antt =====
-- Runs on the small network of module Samples.
use networkbasicswebsite.Prelude.{
  ℕ, ◌≡◌, ◌≢◌, refl, String, true, false, List, [], ◌∷◌, some, elem, string_eq, ◌↔◌, Ends, not,
  ◌&&◌, ◌||◌, ◌==◌, pair_eq, ok, raise, diverged,
}
use networkbasicswebsite.Simulation.Network.{
  flood, flood_loop, flood_step, enqueue, exits, exits_over, admit, ingress, port_count, cable_ends,
  flood_fuel, carries_vlan, switches_frames, routes_ip, peer, peer_of, link_on, Port, routing_peers,
  peer_loop, expand, visit_ports, visit_port, meet, shares, protocols_of,
}
use networkbasicswebsite.Simulation.Network.FloodEnds.{flood_returns}
use networkbasicswebsite.Simulation.Network.FloodExact.{flood_exact, flood-Distinct, Distinct}
use networkbasicswebsite.Ipv4.{
  parse_address, parse_network, contains, subnet_of, network_beq, str_address,
}
use networkbasicswebsite.Text.{split, is_some}
use networkbasicswebsite.Devices.{
  needs_serial, same_pinout, spec_for, interfaces, DeviceKind, CableKind, PortKind, port_kind,
  either_is, recommended_cable, cable_warning, cable_eq, port_eq,
}
use networkbasicswebsite.Devices.Laws.{recommended_cable_symm}
use networkbasicswebsite.Simulation.Network.{
  Route, RoutingCache, SimDevice, network, lookup_route, routing_table, collect_routes,
  dynamic_routes, connected_routes, static_routes, ospf_advertises, classful_advertises, advertises,
  address_in, next_hop_over, next_hop_towards, networks_of, has_network, first_label, learn_ports,
  learn_peers, before, place, sort_routes, first_match, blocked_links_near, cable_accepted,
}
use networkbasicswebsite.Simulation.Network.Broadcast.{Arrives, LetsIn}
use networkbasicswebsite.Simulation.Network.BestRoute.{
  lookup_route_best, lookup_route_cached, IsCoherent, IsCoherent-empty, lookup_route-IsCoherent,
  fresh_table, Answers,
}
use networkbasicswebsite.Simulation.Network.PeersEnd.{
  IsPeer, DistinctNames, routing_peers_sound, routing_peers-ne-diverged, multilayer_switch-not-peer,
}
use networkbasicswebsite.Simulation.Network.BlockedEnds.{blocked_links_near-Ends}
use networkbasicswebsite.Simulation.Network.CableAdvice.{cable_warning-cable_accepted}
use networkbasicswebsite.Simulation.Samples.{office, ml1}

-- A frame from the first host to its switch.
abbrev seeds : List Port
seeds = ("sw1", "f1") ∷ []

abbrev origin : List Port
origin = ("pc1", "e0") ∷ []

abbrev flooded : List Port
flooded = ("sw1", "f1") ∷ ("pc2", "e0") ∷ ("r1", "g0") ∷ []

office-floods : flood office seeds (some 10) origin ≡ ok flooded
unfolding flood flood_loop flood_step enqueue exits exits_over admit ingress port_count cable_ends
    flood_fuel carries_vlan switches_frames routes_ip peer peer_of link_on
office-floods = refl

abbrev protocols : List String
protocols = "ospf" ∷ []

abbrev found_peers : List String
found_peers = "r2" ∷ []

peers_of_r1 : routing_peers office "r1" protocols ≡ ok found_peers
unfolding routing_peers peer_loop expand visit_ports visit_port meet shares protocols_of
    switches_frames routes_ip peer peer_of link_on
peers_of_r1 = refl

-- How r1 reaches the network behind r2: by OSPF.
abbrev learned : Route
learned = record {
  network = record { network_address = 167772928; prefixlen = 24 };
  source = "ospf";
  interface = some "g1";
  next_hop = some "10.0.1.2";
  distance = 110;
}

r1_learns : (lookup_route office "r1" "10.0.3.9" []).0 ≡ ok (some learned)
unfolding lookup_route routing_table collect_routes dynamic_routes connected_routes static_routes
    ospf_advertises classful_advertises advertises address_in next_hop_over next_hop_towards
    networks_of has_network first_label learn_ports learn_peers before place sort_routes first_match
    network parse_address parse_network contains subnet_of network_beq split routing_peers peer_loop
    expand visit_ports visit_port meet shares protocols_of switches_frames routes_ip peer peer_of
    link_on str_address
r1_learns = refl

flood_returns_example : (ports : List Port) × (flood office seeds (some 10) origin ≡ ok ports)
flood_returns_example = flood_returns office seeds (some 10) origin

flood_exact_example : (elem ("r1", "g0") flooded ≡ true) ↔ (
    Arrives office 10 seeds origin ("r1", "g0")
    × (elem ("r1", "g0") origin ≡ false)
    × ((device : SimDevice) × LetsIn office 10 ("r1", "g0") device))
flood_exact_example = flood_exact office seeds 10 origin flooded ("r1", "g0") office-floods

flood-Distinct_example : Distinct flooded
flood-Distinct_example = flood-Distinct office seeds 10 origin flooded office-floods

lookup_route_best_example :
    (target : ℕ) × (table : List Route) × (parse_address "10.0.3.9" ≡ ok target)
    × (fresh_table office "r1" ≡ ok table)
    × Answers office "r1" target table (some learned)
lookup_route_best_example =
    lookup_route_best office "r1" "10.0.3.9" [] (some learned) (IsCoherent-empty office) r1_learns

-- What an earlier lookup left in the cache.
abbrev warm : RoutingCache
warm = (lookup_route office "r1" "10.0.1.7" []).1

lookup_route_cached_example :
    ((lookup_route office "r1" "10.0.3.9" warm).0 ≡ (lookup_route office "r1" "10.0.3.9" []).0)
    × IsCoherent office (lookup_route office "r1" "10.0.3.9" warm).1
lookup_route_cached_example =
    lookup_route_cached office "r1" "10.0.3.9" warm
      (lookup_route-IsCoherent office "r1" "10.0.1.7" [] (IsCoherent-empty office))

routing_peers_sound_example :
    ((id : String) → elem {A = String} id found_peers ≡ true → IsPeer office protocols id)
    × DistinctNames found_peers
    × (elem {A = String} "r1" found_peers ≡ false)
routing_peers_sound_example = routing_peers_sound office "r1" protocols found_peers peers_of_r1

routing_peers-ne-diverged_example : routing_peers office "r1" protocols ≢ raise diverged
routing_peers-ne-diverged_example = routing_peers-ne-diverged office "r1" protocols

multilayer_switch-not-peer_example :
    (routes_ip ml1 ≡ true) × (elem {A = String} "ml1" found_peers ≡ false)
multilayer_switch-not-peer_example =
    multilayer_switch-not-peer office "r1" protocols found_peers "ml1" ml1 peers_of_r1 refl refl

blocked_links_near-Ends_example : Ends (blocked_links_near office "pc1" "e0")
blocked_links_near-Ends_example = blocked_links_near-Ends office "pc1" "e0"

recommended_cable_symm_example :
    recommended_cable DeviceKind.pc "Ethernet0" DeviceKind.router "Console0"
    ≡ recommended_cable DeviceKind.router "Console0" DeviceKind.pc "Ethernet0"
recommended_cable_symm_example =
    recommended_cable_symm DeviceKind.pc "Ethernet0" DeviceKind.router "Console0"

-- Fiber into a serial port: advised against, and accepted by the network.
cable_warning-cable_accepted_example :
    is_some (
      cable_warning DeviceKind.router "Serial0/0/0" DeviceKind.router "Serial0/0/0" CableKind.fiber)
    ≡ (not (
          cable_accepted CableKind.fiber
            (recommended_cable DeviceKind.router "Serial0/0/0" DeviceKind.router "Serial0/0/0"))
        || (CableKind.fiber == CableKind.fiber
            && not (
                CableKind.fiber
                == recommended_cable DeviceKind.router "Serial0/0/0" DeviceKind.router
                    "Serial0/0/0")
            && (either_is PortKind.serial
                  (port_kind DeviceKind.router "Serial0/0/0")
                  (port_kind DeviceKind.router "Serial0/0/0")
                || either_is PortKind.wireless
                    (port_kind DeviceKind.router "Serial0/0/0")
                    (port_kind DeviceKind.router "Serial0/0/0"))))
cable_warning-cable_accepted_example =
    cable_warning-cable_accepted DeviceKind.router "Serial0/0/0" DeviceKind.router "Serial0/0/0"
      CableKind.fiber

fiber_in_serial_warned :
    cable_warning DeviceKind.router "Serial0/0/0" DeviceKind.router "Serial0/0/0" CableKind.fiber
    ≡ some needs_serial
unfolding cable_warning recommended_cable port_kind either_is same_pinout spec_for interfaces
fiber_in_serial_warned = refl
