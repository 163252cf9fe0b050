-- ===== src/Simulation/Network/BestRoute/Cache.antt =====
-- The routing cache holds what would be computed anew, and so it never changes an answer.
use networkbasicswebsite.Prelude.{
  ℕ, ◌≡◌, refl, sym, ◌∙◌, inl, inr, String, List, [], some, arith, ◌==◌, string_eq, lookup, insert,
  lookup-insert, Bool-cases, Option-cases, Result, ok, raise, ◌>>=◌, Result-cases,
}
use networkbasicswebsite.Ipv4.{parse_address}
use networkbasicswebsite.Simulation.Network.Types.{Route, Network}
use networkbasicswebsite.Simulation.Network.Routing.{
  sort_routes, collect_routes, RoutingCache, routing_table, match_table, lookup_route,
}

-- The table computed from the network alone.
abbrev pub fresh_table : Network → String → Result (List Route)
fresh_table net device_id = collect_routes net device_id >>= λ routes. ok (sort_routes routes)

-- Every cached table is the one that would be computed.
abbrev pub IsCoherent : Network → RoutingCache → Type 0
IsCoherent net cache =
    (device_id : String) (table : List Route)
    → lookup device_id cache ≡ some table
    → fresh_table net device_id ≡ ok table

pub IsCoherent-empty : (net : Network) → IsCoherent net []
IsCoherent-empty net device_id table h = cc

module _ (net : Network) where
  IsCoherent-insert :
      (cache : RoutingCache) (device_id : String) (routes : List Route)
      → IsCoherent net cache
      → collect_routes net device_id ≡ ok routes
      → IsCoherent net (insert device_id (sort_routes routes) cache)
  IsCoherent-insert cache device_id routes coherent collected other table h =
      elim (Bool-cases (device_id == other)) [
        | inl same ↦
            let e : device_id ≡ other = (string_eq.eqb_iff device_id other).0 same in
            let found = sym (lookup-insert device_id other (sort_routes routes) cache) ∙ h in
            let stored : sort_routes routes ≡ table = ground (arith, found) in
            rw (← e, collected, stored)
        | inr differs ↦
            let found = sym (lookup-insert device_id other (sort_routes routes) cache) ∙ h in
            coherent other table (ground (arith, found))
      ]

  -- `routing_table` answers as if it computed the table, and keeps the cache coherent.
  pub routing_table_lem :
      (device_id : String) (cache : RoutingCache)
      → IsCoherent net cache
      → ((routing_table net device_id cache).0 ≡ fresh_table net device_id)
        × IsCoherent net (routing_table net device_id cache).1
  unfolding routing_table
  routing_table_lem device_id cache coherent = elim (Option-cases (lookup device_id cache)) [
    | inr (table, hit) ↦ rw (hit, routing_table) (sym (coherent device_id table hit), coherent)
    | inl miss ↦ elim (Result-cases (collect_routes net device_id)) [
      | inl (routes, e) ↦
          rw (miss, e, routing_table) (refl, IsCoherent-insert cache device_id routes coherent e)
      | inr (exn, e) ↦ rw (miss, e, routing_table) (refl, coherent)
    ]
  ]

  match_table-state :
      (device_id : String) (target : ℕ) (r : Result (List Route)) (cache : RoutingCache)
      → (match_table net device_id target (r, cache)).1 ≡ cache
  match_table-state device_id target (ok table) cache = refl
  match_table-state device_id target (raise e) cache = refl

  match_table-answer :
      (device_id : String) (target : ℕ) (r : Result (List Route)) (cache other : RoutingCache)
      → (match_table net device_id target (r, cache)).0
        ≡ (match_table net device_id target (r, other)).0
  match_table-answer device_id target (ok table) cache other = refl
  match_table-answer device_id target (raise e) cache other = refl

  pub lookup_route-IsCoherent :
      (device_id destination : String) (cache : RoutingCache)
      → IsCoherent net cache
      → IsCoherent net (lookup_route net device_id destination cache).1
  unfolding lookup_route
  lookup_route-IsCoherent device_id destination cache coherent =
      elim (Result-cases (parse_address destination)) [
        | inr (exn, e) ↦ rw (e, lookup_route) coherent
        | inl (target, e) ↦
            let (table, cache') = routing_table net device_id cache in
            let kept : IsCoherent net cache' = (routing_table_lem device_id cache coherent).1 in
            rw (e, match_table-state device_id target table cache', lookup_route) kept
      ]

  -- With a coherent cache `lookup_route` answers as it does with an empty one, also where it
  -- raises, and leaves a coherent cache.
  pub lookup_route_cached :
      (device_id destination : String) (cache : RoutingCache)
      → IsCoherent net cache
      → ((lookup_route net device_id destination cache).0
          ≡ (lookup_route net device_id destination []).0)
        × IsCoherent net (lookup_route net device_id destination cache).1
  unfolding lookup_route
  lookup_route_cached device_id destination cache coherent = (
    elim (Result-cases (parse_address destination)) [
      | inr (exn, e) ↦ rw (e, lookup_route)
      | inl (target, e) ↦
          let same =
            (routing_table_lem device_id cache coherent).0
            ∙ sym (routing_table_lem device_id [] (IsCoherent-empty net)).0 in
          let (table, cache') = routing_table net device_id cache in
          let (table', cache'') = routing_table net device_id [] in
          rw (e, same, lookup_route) (match_table-answer device_id target table' cache' cache'')
    ],
    lookup_route-IsCoherent device_id destination cache coherent,
  )
