-- ===== src/Simulation/Forwarding/Steps.antt =====
-- Egress selection and ARP keep the invariant of a run.
use networkbasicswebsite.Prelude.{
  inl, inr, String, Option, none, some, string_eq, pair_eq, option_eq, values, ◌==◌, Bool-cases,
  Result, Ends,
}
use networkbasicswebsite.Ipv4.{Ipv4Network, parse_address}
use networkbasicswebsite.Ipv4.Laws.{parse_address-Ends}
use networkbasicswebsite.Simulation.Trace.{EventKind}
use networkbasicswebsite.Simulation.Network.{SimInterface, SimDevice, Route, Network, lookup_route}
use networkbasicswebsite.Simulation.Network.BestRoute.{lookup_route-IsCoherent}
use networkbasicswebsite.Simulation.Network.RoutesEnd.{lookup_route-Ends}
use networkbasicswebsite.Simulation.Forwarding.Run.{
  M, pure, lift, ◌>>=◌, ◌>>◌, with_routes, trace_fail,
}
use networkbasicswebsite.Simulation.Forwarding.Egress.{
  local_interface, interface_towards, any_enabled, no_route_detail, trace_no_route, next_hop_of,
  trace_route, settle_egress, follow_route, trace_local, egress_by, choose_egress,
}
use networkbasicswebsite.Simulation.Forwarding.Details.{
  local_interface-Ends, no_route_detail-Ends, interface_towards-Ends,
}
use networkbasicswebsite.Simulation.Forwarding.Safe.{
  IsQuiet, IsSafe, Any, lift-IsSafe, bind-IsSafe, trace_add-IsSafe, trace_fail-IsSafe,
  with_routes-IsSafe,
}

pub drop-IsQuiet : (summary : String) → IsQuiet EventKind.drop summary
drop-IsQuiet summary h = cc

module _ (net : Network) where
  -- A step whose answer is not used, and then another.
  pub then-IsSafe :
      {A : Type 0} (R : A → Type 0) (m : M (Unit {0})) (k : M A)
      → IsSafe net (Any net) m
      → IsSafe net R k
      → IsSafe net R (m >> k)
  then-IsSafe R m k h q = bind-IsSafe net (Any net) R m (λ _. k) h (λ _ _. q)

  -- A pure step whose answer is not described, and then another.
  pub lifted-IsSafe :
      {A B : Type 0} (R : B → Type 0) (r : Result A) (f : A → M B)
      → Ends r
      → ((a : A) → IsSafe net R (f a))
      → IsSafe net R (lift r >>= f)
  lifted-IsSafe R r f h k =
      bind-IsSafe net (Any net) R (lift r) f (lift-IsSafe net (Any net) r h (λ _ _. tt))
        (λ a _. k a)

  trace_no_route-IsSafe :
      (device : SimDevice) (destination : String)
      → IsSafe net (Any net) (trace_no_route device destination)
  unfolding trace_no_route
  trace_no_route-IsSafe device destination =
      elim (Bool-cases (any_enabled (values device.interfaces))) [
        | inl e ↦ rw e (
            lifted-IsSafe (Any net) (no_route_detail device destination) _
              (no_route_detail-Ends device destination)
              (λ detail. trace_fail-IsSafe net _ _ _ _ _ _ (drop-IsQuiet _)))
        | inr e ↦ rw e (trace_fail-IsSafe net _ _ _ _ _ _ (drop-IsQuiet _))
      ]

  trace_route-IsSafe :
      (device : SimDevice) (destination : String) (route : Route) (next_hop : String)
      → IsSafe net (Any net) (trace_route device destination route next_hop)
  unfolding trace_route
  trace_route-IsSafe device destination route next_hop =
      elim (Bool-cases (route.source == "gateway")) [
        | inl e ↦ rw e (trace_add-IsSafe net _ _ _ _ _ (λ h. cc))
        | inr e ↦ rw e (trace_add-IsSafe net _ _ _ _ _ (λ h. cc))
      ]

  settle_egress-IsSafe :
      (device : SimDevice) (next_hop : String) (egress : Option SimInterface)
      → IsSafe net (Any net) (settle_egress device next_hop egress)
  unfolding settle_egress
  settle_egress-IsSafe device next_hop (some egress) = λ s v. (v, tt)
  settle_egress-IsSafe device next_hop none =
      then-IsSafe (Any net) (trace_fail _ _ _ _ _ _) (pure none)
        (trace_fail-IsSafe net _ _ _ _ _ _ (drop-IsQuiet _)) (λ s v. (v, tt))

  follow_route-IsSafe :
      (device : SimDevice) (destination : String) (route : Option Route)
      → IsSafe net (Any net) (follow_route device destination route)
  unfolding follow_route
  follow_route-IsSafe device destination none =
      then-IsSafe (Any net) (trace_no_route device destination) (pure none)
        (trace_no_route-IsSafe device destination) (λ s v. (v, tt))
  follow_route-IsSafe device destination (some route) =
      let next_hop = next_hop_of route destination in
      then-IsSafe (Any net) (trace_route device destination route next_hop) _
        (trace_route-IsSafe device destination route next_hop)
        (lifted-IsSafe (Any net) (interface_towards device route next_hop) _
          (interface_towards-Ends device route next_hop)
          (λ egress. settle_egress-IsSafe device next_hop egress))

  egress_by-IsSafe :
      (device : SimDevice) (destination : String) (found : Option (SimInterface × Ipv4Network))
      → IsSafe net (Any net) (egress_by net device destination found)
  unfolding egress_by trace_local
  egress_by-IsSafe device destination (some (port, n)) =
      then-IsSafe (Any net) (trace_local device destination port n) _
        (trace_add-IsSafe net _ _ _ _ _ (λ h. cc)) (λ s v. (v, tt))
  egress_by-IsSafe device destination none =
      bind-IsSafe net (Any net) (Any net) (with_routes (lookup_route net device.id destination)) _
        (with_routes-IsSafe net (lookup_route net device.id destination)
          (lookup_route-IsCoherent net device.id destination)
          (lookup_route-Ends net device.id destination))
        (λ route _. follow_route-IsSafe device destination route)

  pub choose_egress-IsSafe :
      (device : SimDevice) (destination : String)
      → IsSafe net (Any net) (choose_egress net device destination)
  unfolding choose_egress
  choose_egress-IsSafe device destination =
      lifted-IsSafe (Any net) (parse_address destination) _ (parse_address-Ends destination)
        (λ target.
          lifted-IsSafe (Any net) (local_interface target (values device.interfaces)) _
            (local_interface-Ends target (values device.interfaces))
            (λ found. egress_by-IsSafe device destination found))
