-- ===== src/Simulation/Network/Routing.antt =====
-- Layer 3: `routing_table` with its cache, `_dynamic_routes` and `lookup_route`.
use Prim.Native.String.{compare}
use text.Mathlib.Text.{is_lt}
use networkbasicswebsite.Prelude.{
  ℕ, ◌-◌, ◌^◌, String, Bool, true, false, not, ◌&&◌, ◌||◌, List, [], ◌∷◌, ◌++◌, Option, none, some,
  ltb, if◌then◌else◌, ◌==◌, nat_eq, string_eq, Dict, lookup, insert, values, Result, ok, raise,
  required, ◌>>=◌,
}
use networkbasicswebsite.Text.{present}
use networkbasicswebsite.Ipv4.{
  Ipv4Network, parse_address, parse_network, str_address, contains, subnet_of, network_beq,
}
use networkbasicswebsite.Config.{
  StaticRoute, OspfNetwork, OspfConfig, EigrpNetwork, EigrpConfig, RipConfig,
}
use networkbasicswebsite.Simulation.Network.Types.{
  SimInterface, network, SimDevice, Route, prefix_length, Network,
}
use networkbasicswebsite.Simulation.Network.Peers.{protocols_of, routing_peers}

-- `network is not None and interface.enabled`
abbrev pub connected_route : SimInterface → Option Ipv4Network → List Route → List Route
connected_route interface none rest = rest
connected_route interface (some n) rest =
    if interface.enabled
    then record {
      network = n;
      source = "connected";
      interface = some interface.name;
      next_hop = none;
      distance = 0;
    }
      ∷ rest
    else rest

unfoldable pub connected_routes : List SimInterface → Result (List Route)
connected_routes [] = ok []
connected_routes (interface ∷ rest) = do
  n ← network interface
  routes ← connected_routes rest
  ok (connected_route interface n routes)

-- `except ValueError: continue`
abbrev pub static_route : StaticRoute → Result Ipv4Network → List Route → List Route
static_route static (raise _) rest = rest
static_route static (ok n) rest =
    record {
      network = n;
      source = "static";
      interface = static.exit_interface;
      next_hop = static.next_hop;
      distance = static.distance;
    }
    ∷ rest

unfoldable pub static_routes : List StaticRoute → List Route
static_routes [] = []
static_routes (static ∷ rest) =
    static_route static (parse_network static.network static.mask) (static_routes rest)

-- `except ValueError: continue`, and the test of one OSPF statement
abbrev pub within_advertised : Ipv4Network → Result Ipv4Network → Bool
within_advertised n (raise _) = false
within_advertised n (ok advertised) = subnet_of n advertised || network_beq n advertised

unfoldable pub ospf_advertises : List OspfNetwork → Ipv4Network → Result Bool
ospf_advertises [] n = ok false
ospf_advertises (entry ∷ rest) n = do
  wildcard ← parse_address entry.wildcard
  elim (within_advertised n (parse_network entry.network (str_address (2 ^ 32 - 1 - wildcard)))) [
    | true ↦ ok true
    | false ↦ ospf_advertises rest n
  ]

-- A bare `network 10.0.0.0` covers the whole /8, for EIGRP and RIP alike.
unfoldable pub classful_advertises : List String → Ipv4Network → Result Bool
classful_advertises [] n = ok false
classful_advertises (address ∷ rest) n = do
  block ← parse_network address "8"
  elim (contains block n.network_address) [ true ↦ ok true | false ↦ classful_advertises rest n ]

abbrev pub ospf_networks : Option OspfConfig → List OspfNetwork
ospf_networks none = []
ospf_networks (some ospf) = ospf.networks

abbrev pub eigrp_addresses : List EigrpNetwork → List String
eigrp_addresses [] = []
eigrp_addresses (entry ∷ rest) = entry.network ∷ eigrp_addresses rest

abbrev pub eigrp_networks : Option EigrpConfig → List String
eigrp_networks none = []
eigrp_networks (some eigrp) = eigrp_addresses eigrp.networks

abbrev pub rip_networks : Option RipConfig → List String
rip_networks none = []
rip_networks (some rip) = rip.networks

-- `a or b`, where `b` may raise
abbrev pub or_else : Bool → Result Bool → Result Bool
or_else true b = ok true
or_else false b = b

-- `_advertises`
unfoldable pub advertises : SimDevice → Ipv4Network → Result Bool
advertises device n = do
  ospf ← ospf_advertises (ospf_networks device.config.ospf) n
  or_else ospf (do
    eigrp ← classful_advertises (eigrp_networks device.config.eigrp) n
    or_else eigrp (classful_advertises (rip_networks device.config.rip) n))

-- The inner loop of `_next_hop_towards`: an address of the target in this network.
abbrev pub same_network : Ipv4Network → Option Ipv4Network → Bool
same_network n none = false
same_network n (some other) = network_beq other n

unfoldable pub address_in : Ipv4Network → List SimInterface → Result (Option String)
address_in n [] = ok none
address_in n (port ∷ rest) = do
  other ← network port
  elim (if port.enabled && same_network n other then present port.ip else none) [
    | some address ↦ ok (some address)
    | none ↦ address_in n rest
  ]

abbrev pub hop_from : SimInterface → Option Ipv4Network → List SimInterface → Result (Option String)
hop_from port none targets = ok none
hop_from port (some n) targets = if port.enabled then address_in n targets else ok none

-- The loop over the ports of the device.
unfoldable pub next_hop_over :
    Dict String SimInterface → List SimInterface → Result (Option (String × String))
next_hop_over [] targets = ok none
next_hop_over ((name, port) ∷ rest) targets = do
  n ← network port
  found ← hop_from port n targets
  elim found [ some address ↦ ok (some (address, name)) | none ↦ next_hop_over rest targets ]

-- `_next_hop_towards`
unfoldable pub next_hop_towards : Network → String → String → Result (Option (String × String))
next_hop_towards net device_id target_device = do
  device ← required (lookup device_id net.devices)
  target ← required (lookup target_device net.devices)
  next_hop_over device.interfaces (values target.interfaces)

-- `own_networks`, which counts the ports that are down too
unfoldable pub networks_of : List SimInterface → Result (List Ipv4Network)
networks_of [] = ok []
networks_of (port ∷ rest) = do
  n ← network port
  more ← networks_of rest
  elim n [ none ↦ ok more | some own ↦ ok (own ∷ more) ]

unfoldable pub has_network : Ipv4Network → List Ipv4Network → Bool
has_network n [] = false
has_network n (own ∷ rest) = network_beq n own || has_network n rest

-- `sorted(protocols)[0]`
unfoldable pub first_label : String → List String → String
first_label best [] = best
first_label best (name ∷ rest) = first_label (if is_lt (compare name best) then name else best) rest

abbrev pub learned_route : String → String × String → Ipv4Network → Bool → List Route
learned_route label hop n false = []
learned_route label hop n true =
    record {
      network = n;
      source = label;
      interface = some hop.1;
      next_hop = some hop.0;
      distance = 110;
    }
    ∷ []

abbrev pub learn_port :
    SimDevice
    → List Ipv4Network
    → String
    → String × String
    → SimInterface
    → Option Ipv4Network
    → Result (List Route)
learn_port peer own label hop port none = ok []
learn_port peer own label hop port (some n) =
    if not port.enabled || has_network n own
    then ok []
    else do covered ← advertises peer n; ok (learned_route label hop n covered)

-- The routes that one peer's ports give.
unfoldable pub learn_ports :
    SimDevice
    → List Ipv4Network
    → String
    → String × String
    → List SimInterface
    → Result (List Route)
learn_ports peer own label hop [] = ok []
learn_ports peer own label hop (port ∷ rest) = do
  n ← network port
  here ← learn_port peer own label hop port n
  more ← learn_ports peer own label hop rest
  ok (here ++ more)

unfoldable pub learn_peers :
    Network → String → List Ipv4Network → String → List String → Result (List Route)
learn_peers net device_id own label [] = ok []
learn_peers net device_id own label (peer_id ∷ rest) = do
  peer ← required (lookup peer_id net.devices)
  hop ← next_hop_towards net device_id peer_id
  here ← elim hop [ none ↦ ok [] | some h ↦ learn_ports peer own label h (values peer.interfaces) ]
  more ← learn_peers net device_id own label rest
  ok (here ++ more)

abbrev pub learn_with : Network → String → SimDevice → List String → Result (List Route)
learn_with net device_id device [] = ok []
learn_with net device_id device (name ∷ rest) = do
  own ← networks_of (values device.interfaces)
  peers ← routing_peers net device_id (name ∷ rest)
  learn_peers net device_id own (first_label name rest) peers

-- `_dynamic_routes`
unfoldable pub dynamic_routes : Network → String → Result (List Route)
dynamic_routes net device_id = do
  device ← required (lookup device_id net.devices)
  learn_with net device_id device (protocols_of device.config)

-- `a` sorts strictly before `b` under the key (-prefix_length, distance).
unfoldable pub before : Route → Route → Bool
before a b =
    ltb (prefix_length b) (prefix_length a)
    || prefix_length a == prefix_length b && ltb a.distance b.distance

-- `routes.sort(key=…)`: a stable sort, here by insertion.
unfoldable pub place : Route → List Route → List Route
place route [] = route ∷ []
place route (other ∷ rest) =
    if before other route then other ∷ place route rest else route ∷ other ∷ rest

unfoldable pub sort_routes : List Route → List Route
sort_routes [] = []
sort_routes (route ∷ rest) = place route (sort_routes rest)

-- The table in the order in which the source collects it.
unfoldable pub collect_routes : Network → String → Result (List Route)
collect_routes net device_id = do
  device ← required (lookup device_id net.devices)
  connected ← connected_routes (values device.interfaces)
  learned ← dynamic_routes net device_id
  ok (connected ++ (static_routes device.config.static_routes ++ learned))

abbrev pub RoutingCache : Type 0
RoutingCache = Dict String (List Route)

-- What is not in the cache is computed and stored. An exception leaves the cache as it was.
abbrev pub store_table :
    String → RoutingCache → Result (List Route) → Result (List Route) × RoutingCache
store_table device_id cache (raise e) = (raise e, cache)
store_table device_id cache (ok routes) =
    (ok (sort_routes routes), insert device_id (sort_routes routes) cache)

-- `routing_table`
unfoldable pub routing_table : Network → String → RoutingCache → Result (List Route) × RoutingCache
routing_table net device_id cache = elim (lookup device_id cache) [
  | some routes ↦ (ok routes, cache)
  | none ↦ store_table device_id cache (collect_routes net device_id)
]

unfoldable pub first_match : ℕ → List Route → Option Route
first_match target [] = none
first_match target (route ∷ rest) =
    if contains route.network target then some route else first_match target rest

abbrev pub default_network : Ipv4Network
default_network = record { network_address = 0; prefixlen = 0 }

-- The default gateway of hosts and switches, where no route matches.
abbrev pub gateway_route : Option String → Option Route
gateway_route none = none
gateway_route (some gateway) = some (record {
  network = default_network;
  source = "gateway";
  interface = none;
  next_hop = some gateway;
  distance = 0;
})

abbrev pub choose_route : Network → String → ℕ → List Route → Result (Option Route)
choose_route net device_id target table = elim (first_match target table) [
  | some route ↦ ok (some route)
  | none ↦ do
    device ← required (lookup device_id net.devices)
    ok (gateway_route (present device.config.default_gateway))
]

abbrev pub match_table :
    Network → String → ℕ → Result (List Route) × RoutingCache → Result (Option Route) × RoutingCache
match_table net device_id target (raise e, cache) = (raise e, cache)
match_table net device_id target (ok table, cache) =
    (choose_route net device_id target table, cache)

-- `lookup_route`
unfoldable pub lookup_route :
    Network → String → String → RoutingCache → Result (Option Route) × RoutingCache
lookup_route net device_id destination cache = elim (parse_address destination) [
  | raise e ↦ (raise e, cache)
  | ok target ↦ match_table net device_id target (routing_table net device_id cache)
]
