-- ===== src/Simulation/Network/RoutesEnd.antt =====
-- No loop behind `lookup_route` runs out of fuel.
use networkbasicswebsite.Prelude.{
  ℕ, ◌-◌, ◌^◌, inl, inr, String, Bool, true, false, not, ◌&&◌, ◌||◌, List, [], ◌∷◌, Option, none,
  some, string_eq, Dict, lookup, values, if◌then◌else◌, Option-cases, Result-cases, Result, ok,
  required, Ends, Ends-bind, Ends-required, Ends-of_ne, Ends-option, Ends-bool, Ends-if,
}
use networkbasicswebsite.Text.{present}
use networkbasicswebsite.Ipv4.{Ipv4Network, parse_address, parse_network, str_address, contains}
use networkbasicswebsite.Ipv4.Laws.{parse_address-Ends, parse_network-Ends}
use networkbasicswebsite.Config.{OspfNetwork}
use networkbasicswebsite.Simulation.Network.Types.{
  SimInterface, subnet, network, SimDevice, Route, Network,
}
use networkbasicswebsite.Simulation.Network.Peers.{protocols_of, routing_peers}
use networkbasicswebsite.Simulation.Network.PeersEnd.{routing_peers-ne-diverged}
use networkbasicswebsite.Simulation.Network.Routing.{
  connected_routes, ospf_advertises, classful_advertises, advertises, or_else, within_advertised,
  address_in, next_hop_over, hop_from, next_hop_towards, networks_of, has_network, learn_port,
  learn_ports, learn_peers, learn_with, dynamic_routes, collect_routes, RoutingCache, routing_table,
  first_match, choose_route, lookup_route, same_network, ospf_networks, eigrp_networks,
  rip_networks, first_label,
}

subnet-Ends : (ip mask : Option String) → Ends (subnet ip mask)
subnet-Ends none mask = tt
subnet-Ends (some ip) none = tt
subnet-Ends (some ip) (some mask) =
    Ends-bind (parse_network ip mask) _ (parse_network-Ends ip mask) (λ n. tt)

pub network-Ends : (port : SimInterface) → Ends (network port)
unfolding network
network-Ends port = subnet-Ends (present port.ip) (present port.mask)

connected_routes-Ends : (ports : List SimInterface) → Ends (connected_routes ports)
unfolding connected_routes
connected_routes-Ends [] = tt
connected_routes-Ends (port ∷ rest) =
    Ends-bind (network port) _ (network-Ends port)
      (λ n. Ends-bind (connected_routes rest) _ (connected_routes-Ends rest) (λ r. tt))

networks_of-Ends : (ports : List SimInterface) → Ends (networks_of ports)
unfolding networks_of
networks_of-Ends [] = tt
networks_of-Ends (port ∷ rest) = Ends-bind (network port) _ (network-Ends port) (λ n.
    Ends-bind (networks_of rest) _ (networks_of-Ends rest)
      (λ more. Ends-option n (ok more) (λ own. ok (own ∷ more)) tt (λ own. tt)))

address_in-Ends : (n : Ipv4Network) (ports : List SimInterface) → Ends (address_in n ports)
unfolding address_in
address_in-Ends n [] = tt
address_in-Ends n (port ∷ rest) =
    let later = address_in-Ends n rest in
    Ends-bind (network port) _ (network-Ends port) (λ other.
      Ends-option (if port.enabled && same_network n other then present port.ip else none)
        (address_in n rest) (λ address. ok (some address)) later (λ address. tt))

hop_from-Ends :
    (port : SimInterface) (n : Option Ipv4Network) (targets : List SimInterface)
    → Ends (hop_from port n targets)
hop_from-Ends port none targets = tt
hop_from-Ends port (some n) targets =
    Ends-if port.enabled (address_in n targets) (ok none) (address_in-Ends n targets) tt

next_hop_over-Ends :
    (ports : Dict String SimInterface) (targets : List SimInterface)
    → Ends (next_hop_over ports targets)
unfolding next_hop_over
next_hop_over-Ends [] targets = tt
next_hop_over-Ends ((name, port) ∷ rest) targets =
    let later = next_hop_over-Ends rest targets in
    Ends-bind (network port) _ (network-Ends port) (λ n.
      Ends-bind (hop_from port n targets) _ (hop_from-Ends port n targets) (λ found.
        Ends-option found (next_hop_over rest targets) (λ address. ok (some (address, name))) later
          (λ address. tt)))

next_hop_towards-Ends :
    (net : Network) (device_id target : String) → Ends (next_hop_towards net device_id target)
unfolding next_hop_towards
next_hop_towards-Ends net device_id target =
    Ends-bind (required (lookup device_id net.devices)) _ (Ends-required _) (λ device.
      Ends-bind (required (lookup target net.devices)) _ (Ends-required _)
        (λ other. next_hop_over-Ends device.interfaces (values other.interfaces)))

ospf_advertises-Ends :
    (entries : List OspfNetwork) (n : Ipv4Network) → Ends (ospf_advertises entries n)
unfolding ospf_advertises
ospf_advertises-Ends [] n = tt
ospf_advertises-Ends (entry ∷ rest) n =
    let later = ospf_advertises-Ends rest n in
    Ends-bind (parse_address entry.wildcard) _ (parse_address-Ends entry.wildcard) (λ w.
      Ends-bool (within_advertised n (parse_network entry.network (str_address (2 ^ 32 - 1 - w))))
        (ok true) (ospf_advertises rest n) tt later)

classful_advertises-Ends :
    (addresses : List String) (n : Ipv4Network) → Ends (classful_advertises addresses n)
unfolding classful_advertises
classful_advertises-Ends [] n = tt
classful_advertises-Ends (address ∷ rest) n =
    let later = classful_advertises-Ends rest n in
    Ends-bind (parse_network address "8") _ (parse_network-Ends address "8") (λ block.
      Ends-bool (contains block n.network_address) (ok true) (classful_advertises rest n) tt later)

or_else-Ends : (b : Bool) (r : Result Bool) → Ends r → Ends (or_else b r)
or_else-Ends true r h = tt
or_else-Ends false r h = h

advertises-Ends : (device : SimDevice) (n : Ipv4Network) → Ends (advertises device n)
unfolding advertises
advertises-Ends device n =
    Ends-bind _ _ (ospf_advertises-Ends (ospf_networks device.config.ospf) n) (λ ospf.
      or_else-Ends ospf _ (
        Ends-bind _ _ (classful_advertises-Ends (eigrp_networks device.config.eigrp) n) (λ eigrp.
          or_else-Ends eigrp _ (classful_advertises-Ends (rip_networks device.config.rip) n))))

learn_port-Ends :
    (peer : SimDevice) (own : List Ipv4Network) (label : String) (hop : String × String)
    (port : SimInterface) (n : Option Ipv4Network)
    → Ends (learn_port peer own label hop port n)
learn_port-Ends peer own label hop port none = tt
learn_port-Ends peer own label hop port (some n) =
    Ends-if (not port.enabled || has_network n own) (ok []) _ tt
      (Ends-bind (advertises peer n) _ (advertises-Ends peer n) (λ covered. tt))

learn_ports-Ends :
    (peer : SimDevice) (own : List Ipv4Network) (label : String) (hop : String × String)
    (ports : List SimInterface)
    → Ends (learn_ports peer own label hop ports)
unfolding learn_ports
learn_ports-Ends peer own label hop [] = tt
learn_ports-Ends peer own label hop (port ∷ rest) =
    let later = learn_ports-Ends peer own label hop rest in
    Ends-bind (network port) _ (network-Ends port) (λ n.
      Ends-bind (learn_port peer own label hop port n) _ (learn_port-Ends peer own label hop port n)
        (λ here. Ends-bind (learn_ports peer own label hop rest) _ later (λ more. tt)))

learn_peers-Ends :
    (net : Network) (device_id : String) (own : List Ipv4Network) (label : String)
    (peers : List String)
    → Ends (learn_peers net device_id own label peers)
unfolding learn_peers
learn_peers-Ends net device_id own label [] = tt
learn_peers-Ends net device_id own label (peer_id ∷ rest) =
    let later = learn_peers-Ends net device_id own label rest in
    Ends-bind (required (lookup peer_id net.devices)) _ (Ends-required _) (λ peer.
      Ends-bind (next_hop_towards net device_id peer_id) _
        (next_hop_towards-Ends net device_id peer_id)
        (λ hop.
          Ends-bind _ _
            (Ends-option hop (ok []) (λ h. learn_ports peer own label h (values peer.interfaces)) tt
              (λ h. learn_ports-Ends peer own label h (values peer.interfaces)))
            (λ here. Ends-bind (learn_peers net device_id own label rest) _ later (λ more. tt))))

learn_with-Ends :
    (net : Network) (device_id : String) (device : SimDevice) (labels : List String)
    → Ends (learn_with net device_id device labels)
learn_with-Ends net device_id device [] = tt
learn_with-Ends net device_id device (name ∷ rest) =
    Ends-bind (networks_of (values device.interfaces)) _
      (networks_of-Ends (values device.interfaces))
      (λ own.
        Ends-bind (routing_peers net device_id (name ∷ rest)) _
          (Ends-of_ne _ (routing_peers-ne-diverged net device_id (name ∷ rest)))
          (λ peers. learn_peers-Ends net device_id own (first_label name rest) peers))

collect_routes-Ends : (net : Network) (device_id : String) → Ends (collect_routes net device_id)
unfolding collect_routes dynamic_routes
collect_routes-Ends net device_id =
    Ends-bind (required (lookup device_id net.devices)) _ (Ends-required _) (λ device.
      Ends-bind (connected_routes (values device.interfaces)) _
        (connected_routes-Ends (values device.interfaces))
        (λ connected.
          Ends-bind _ _
            (Ends-bind (required (lookup device_id net.devices)) _ (Ends-required _)
              (λ same. learn_with-Ends net device_id same (protocols_of same.config)))
            (λ learned. tt)))

choose_route-Ends :
    (net : Network) (device_id : String) (target : ℕ) (table : List Route)
    → Ends (choose_route net device_id target table)
choose_route-Ends net device_id target table =
    Ends-option (first_match target table) _ (λ route. ok (some route))
      (Ends-bind (required (lookup device_id net.devices)) _ (Ends-required _) (λ device. tt))
      (λ route. tt)

-- `lookup_route` never runs out of fuel, whatever the network and the cache.
pub lookup_route-Ends :
    (net : Network) (device_id destination : String) (cache : RoutingCache)
    → Ends (lookup_route net device_id destination cache).0
unfolding lookup_route routing_table
lookup_route-Ends net device_id destination cache =
    elim (Result-cases (parse_address destination)) [
      | inr (exn, e) ↦ rw (e, lookup_route) (rw e at (parse_address-Ends destination))
      | inl (target, e) ↦ elim (Option-cases (lookup device_id cache)) [
        | inr (table, hit) ↦
            rw (e, hit, lookup_route, routing_table) (choose_route-Ends net device_id target table)
        | inl miss ↦ elim (Result-cases (collect_routes net device_id)) [
          | inl (routes, c) ↦
              rw (e, miss, c, lookup_route, routing_table)
                (choose_route-Ends net device_id target _)
          | inr (exn, c) ↦
              rw (e, miss, c, lookup_route, routing_table)
                (rw c at (collect_routes-Ends net device_id))
        ]
      ]
    ]
