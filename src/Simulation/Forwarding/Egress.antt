-- ===== src/Simulation/Forwarding/Egress.antt =====
-- Egress selection: `choose_egress`, with the explanation of a missing route.
use networkbasicswebsite.Prelude
use networkbasicswebsite.Prelude.{
  ℕ, String, Bool, true, false, not, ◌&&◌, List, [], ◌∷◌, Option, none, some, if◌then◌else◌, ◌==◌,
  string_eq, lookup, values, Result, ok, raise,
}
use networkbasicswebsite.Text.{concat, present, shown}
use networkbasicswebsite.Ipv4.{Ipv4Network, parse_address, contains, str_network}
use networkbasicswebsite.Simulation.Trace.{EventKind, no_extra}
use networkbasicswebsite.Simulation.Network.{
  SimInterface, network, SimDevice, Route, Network, lookup_route,
}
use networkbasicswebsite.Simulation.Forwarding.Run.{
  M, pure, lift, ◌>>=◌, ◌>>◌, trace_add, trace_fail, with_routes,
}

-- A live interface whose subnet holds the target, with that subnet.
abbrev pub live_cover : SimInterface → ℕ → Option Ipv4Network → Option (SimInterface × Ipv4Network)
live_cover port target none = none
live_cover port target (some n) = if port.enabled && contains n target then some (port, n) else none

-- The loop over the interfaces, in `choose_egress` and in `_interface_towards`.
unfoldable pub local_interface :
    ℕ → List SimInterface → Result (Option (SimInterface × Ipv4Network))
local_interface target [] = ok none
local_interface target (port ∷ rest) = Prelude.◌>>=◌ (network port) λ n.
    elim (live_cover port target n) [
      | some found ↦ ok (some found)
      | none ↦ local_interface target rest
    ]

-- A port that is down and whose subnet holds the target.
abbrev down_cover : SimInterface → ℕ → Option Ipv4Network → Option Ipv4Network
down_cover port target none = none
down_cover port target (some n) = if not port.enabled && contains n target then some n else none

unfoldable pub shut_interface : ℕ → List SimInterface → Result (Option (SimInterface × Ipv4Network))
shut_interface target [] = ok none
shut_interface target (port ∷ rest) = Prelude.◌>>=◌ (network port) λ n.
    elim (down_cover port target n) [
      | some found ↦ ok (some (port, found))
      | none ↦ shut_interface target rest
    ]

abbrev route_detail : Option (SimInterface × Ipv4Network) → String
route_detail none = concat (
    "This device has no matching route and no default gateway. "
    ∷ "A host needs a gateway; a router needs a route." ∷ [])
route_detail (some (port, n)) = concat (
    port.name
    ∷ " is in "
    ∷ str_network n
    ∷ " and would reach this "
    ∷ "destination, but it is administratively down. It needs "
    ∷ "'no shutdown'."
    ∷ [])

-- `_no_route_detail`
unfoldable pub no_route_detail : SimDevice → String → Result String
no_route_detail device destination = Prelude.◌>>=◌ (parse_address destination) λ target.
    Prelude.◌>>=◌ (shut_interface target (values device.interfaces)) λ shut. ok (route_detail shut)

abbrev interface_of : Option (SimInterface × Ipv4Network) → Option SimInterface
interface_of none = none
interface_of (some (port, n)) = some port

abbrev named_interface : SimDevice → Option String → Option SimInterface
named_interface device none = none
named_interface device (some name) = elim (lookup name device.interfaces) [
  | none ↦ none
  | some port ↦ if port.enabled then some port else none
]

-- `_interface_towards`
unfoldable pub interface_towards : SimDevice → Route → String → Result (Option SimInterface)
interface_towards device route next_hop = elim (named_interface device (present route.interface)) [
  | some port ↦ ok (some port)
  | none ↦ Prelude.◌>>=◌ (parse_address next_hop) λ target.
      Prelude.◌>>=◌ (local_interface target (values device.interfaces))
        λ found. ok (interface_of found)
]

unfoldable pub any_enabled : List SimInterface → Bool
any_enabled [] = false
any_enabled (port ∷ rest) = if port.enabled then true else any_enabled rest

-- `route is None`: which failure the trace names.
unfoldable pub trace_no_route : SimDevice → String → M (Unit {0})
trace_no_route device destination =
    if any_enabled (values device.interfaces)
    then (do
      detail ← lift (no_route_detail device destination)
      trace_fail EventKind.drop device.id device.name (concat ("No route to " ∷ destination ∷ []))
          (some detail) none)
    else trace_fail EventKind.drop device.id device.name "No interface is up"
        (some "Every interface is administratively down — they need 'no shutdown'.") none

-- `route.next_hop or destination`
abbrev pub next_hop_of : Route → String → String
next_hop_of route destination = elim (present route.next_hop) [
  | some hop ↦ hop
  | none ↦ destination
]

abbrev hop_detail : Route → String → String
hop_detail route next_hop = elim (present route.next_hop) [
  | some _ ↦ concat ("Next hop " ∷ next_hop ∷ [])
  | none ↦ concat ("Directly connected on " ∷ shown route.interface ∷ [])
]

unfoldable pub trace_route : SimDevice → String → Route → String → M (Unit {0})
trace_route device destination route next_hop =
    if route.source == "gateway"
    then trace_add EventKind.route_lookup device.id device.name
        (concat (destination ∷ " is not local — sending to the gateway " ∷ next_hop ∷ []))
        (record no_extra {
          detail = some "The destination is in another subnet, so the frame goes to the gateway.";
        })
    else trace_add EventKind.route_lookup device.id device.name
        (concat ("Route to " ∷ str_network route.network ∷ " via " ∷ route.source ∷ []))
        (record no_extra { interface = route.interface; detail = some (hop_detail route next_hop) })

-- What a host decides: the exit interface and the address to ask for, or `none` for (None, None).
abbrev pub Egress : Type 0
Egress = Option (SimInterface × String)

unfoldable pub settle_egress : SimDevice → String → Option SimInterface → M Egress
settle_egress device next_hop (some egress) = pure (some (egress, next_hop))
settle_egress device next_hop none = do
  trace_fail EventKind.drop device.id device.name
      (concat ("Cannot reach the next hop " ∷ next_hop ∷ []))
      (some (
        concat (
          "No interface on " ∷ device.name ∷ " is in the same subnet as " ∷ next_hop
          ∷ ". The gateway address is probably wrong." ∷ [])))
      none
  pure none

-- The branch for another subnet, once the route is looked up.
unfoldable pub follow_route : SimDevice → String → Option Route → M Egress
follow_route device destination none = do trace_no_route device destination; pure none
follow_route device destination (some route) = do
  let next_hop = next_hop_of route destination
  trace_route device destination route next_hop
  egress ← lift (interface_towards device route next_hop)
  settle_egress device next_hop egress

unfoldable pub trace_local : SimDevice → String → SimInterface → Ipv4Network → M (Unit {0})
trace_local device destination port n =
    trace_add EventKind.route_lookup device.id device.name
      (concat (destination ∷ " is on the local subnet " ∷ str_network n ∷ []))
      (record no_extra {
        interface = some port.name;
        detail =
            some
              (concat ("Reached directly through " ∷ port.name ∷ "; no gateway is involved." ∷ []));
      })

-- The same subnet, or a router must carry it.
unfoldable pub egress_by :
    Network → SimDevice → String → Option (SimInterface × Ipv4Network) → M Egress
egress_by net device destination (some (port, n)) = do
  trace_local device destination port n
  pure (some (port, destination))
egress_by net device destination none = do
  route ← with_routes (lookup_route net device.id destination)
  follow_route device destination route

-- `choose_egress`
unfoldable pub choose_egress : Network → SimDevice → String → M Egress
choose_egress net device destination = do
  target ← lift (parse_address destination)
  found ← lift (local_interface target (values device.interfaces))
  egress_by net device destination found
