-- ===== src/Simulation/Network/BestRoute/Choice.antt =====
-- Which route `lookup_route` chooses.
use mathlib.Core.List.Memᴰ
use networkbasicswebsite.Prelude.{
  ℕ, ◌≡◌, sym, ◌∙◌, ◌⊎◌, inl, inr, String, true, false, List, [], ◌∷◌, Option, none, some, arith,
  string_eq, lookup, Memᴰ, Bool-cases, Option-cases, ok, Result-cases,
}
use networkbasicswebsite.Text.{present}
use networkbasicswebsite.Ipv4.{parse_address, contains}
use networkbasicswebsite.Simulation.Network.Types.{Route, SimDevice, Network}
use networkbasicswebsite.Simulation.Network.Routing.{
  sort_routes, collect_routes, RoutingCache, first_match, gateway_route, choose_route, lookup_route,
}
use networkbasicswebsite.Simulation.Network.BestRoute.Order.{
  NotWorse, IsSorted, AllNotWorse-Memᴰ, sort_routes-IsSorted,
}
use networkbasicswebsite.Simulation.Network.BestRoute.Cache.{
  fresh_table, IsCoherent, routing_table_lem,
}

abbrev pub NoMatch : ℕ → List Route → Type 0
NoMatch target table = (other : Route) → Memᴰ other table → contains other.network target ≡ false

-- In the table, matching, and not worse than any other match.
pub record IsBest (target : ℕ) (table : List Route) (route : Route) : Type 0 where
  pub listed : Memᴰ route table
  pub matching : contains route.network target ≡ true
  pub best :
      (other : Route)
      → Memᴰ other table
      → contains other.network target ≡ true
      → (other ≡ route) ⊎ NotWorse route other

pub first_match-IsBest :
    (target : ℕ) (table : List Route) (route : Route)
    → IsSorted table
    → first_match target table ≡ some route
    → IsBest target table route
unfolding first_match
first_match-IsBest target [] route h e = cc
first_match-IsBest target (first ∷ rest) route h e =
    elim (Bool-cases (contains first.network target)) [
      | inl hit ↦
          let same : first ≡ route = ground arith in
          record {
            listed = Memᴰ.head (sym same);
            matching = rw same at hit;
            best = λ other m c. elim (Memᴰ.cases_cons m) [
              | inl here ↦ inl (here ∙ same)
              | inr later ↦ inr (rw same at (AllNotWorse-Memᴰ first other rest h.0 later))
            ];
          }
      | inr miss ↦
          let later = first_match-IsBest target rest route h.1 (ground arith) in
          record {
            listed = Memᴰ.tail later.listed;
            matching = later.matching;
            best = λ other m c. elim (Memᴰ.cases_cons m) [
              | inl here ↦
                  absurd (let gone : contains other.network target ≡ false = rw here miss in cc)
              | inr m' ↦ later.best other m' c
            ];
          }
    ]

pub first_match-none :
    (target : ℕ) (table : List Route) → first_match target table ≡ none → NoMatch target table
unfolding first_match
first_match-none target [] e other m = absurd (Memᴰ.not-nil m)
first_match-none target (first ∷ rest) e other m =
    elim (Bool-cases (contains first.network target)) [
      | inl hit ↦ absurd (ground arith)
      | inr miss ↦ elim (Memᴰ.cases_cons m) [
        | inl here ↦ rw here miss
        | inr m' ↦ first_match-none target rest (ground arith) other m'
      ]
    ]

-- The answer is the default gateway's.
pub record IsGateway (net : Network) (device_id : String) (answer : Option Route) : Type 0 where
  pub device : SimDevice
  pub known : lookup device_id net.devices ≡ some device
  pub chosen : answer ≡ gateway_route (present device.config.default_gateway)

abbrev pub Answers : Network → String → ℕ → List Route → Option Route → Type 0
Answers net device_id target table answer =
    ((route : Route) × (answer ≡ some route) × IsBest target table route)
    ⊎ (NoMatch target table × IsGateway net device_id answer)

choose_route-Answers :
    (net : Network) (device_id : String) (target : ℕ) (table : List Route) (answer : Option Route)
    → IsSorted table
    → choose_route net device_id target table ≡ ok answer
    → Answers net device_id target table answer
choose_route-Answers net device_id target table answer h e =
    elim (Option-cases (first_match target table)) [
      | inr (route, hit) ↦ inl (route, ground arith, first_match-IsBest target table route h hit)
      | inl miss ↦ elim (Option-cases (lookup device_id net.devices)) [
        | inl unknown ↦ absurd (ground arith)
        | inr (device, known) ↦ inr (
          first_match-none target table miss,
          record { device = device; known = known; chosen = ground arith },
        )
      ]
    ]

-- With a coherent cache, what `lookup_route` returns is a route of the device's table that contains
-- the destination, with the longest prefix and, among equals, the least distance. If no route of the
-- table contains the destination, it is the default gateway's route, or None where there is no
-- gateway.
pub lookup_route_best :
    (net : Network) (device_id destination : String) (cache : RoutingCache) (answer : Option Route)
    → IsCoherent net cache
    → (lookup_route net device_id destination cache).0 ≡ ok answer
    → (target : ℕ) × (table : List Route) × (parse_address destination ≡ ok target)
      × (fresh_table net device_id ≡ ok table)
      × Answers net device_id target table answer
unfolding lookup_route
lookup_route_best net device_id destination cache answer coherent h =
    let (same, _) = routing_table_lem net device_id cache coherent in
    elim (Result-cases (parse_address destination)) [
      | inr (exn, e) ↦ absurd (ground arith)
      | inl (target, e) ↦ elim (Result-cases (collect_routes net device_id)) [
        | inr (exn, c) ↦ absurd (ground arith)
        | inl (routes, c) ↦ (
          target,
          sort_routes routes,
          e,
          rw c,
          choose_route-Answers net device_id target (sort_routes routes) answer
              (sort_routes-IsSorted routes) (ground arith),
        )
      ]
    ]
