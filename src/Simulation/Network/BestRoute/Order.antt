-- ===== src/Simulation/Network/BestRoute/Order.antt =====
-- The order of a routing table.
use mathlib.Core.List.{Perm}
use mathlib.Core.List.Perm
use mathlib.Core.List.Memᴰ
use networkbasicswebsite.Prelude.{
  ◌≤◌, ◌<◌, ◌≡◌, ◌⊎◌, inl, inr, true, false, List, [], ◌∷◌, arith, nat_eq, Memᴰ, Bool-cases,
}
use networkbasicswebsite.Simulation.Network.Types.{Route, prefix_length}
use networkbasicswebsite.Simulation.Network.Routing.{before, place, sort_routes}

-- `a` may stand in front of `b`: its prefix is longer, or as long and its distance no greater.
abbrev pub NotWorse : Route → Route → Type 0
NotWorse a b =
    (prefix_length b < prefix_length a)
    ⊎ ((prefix_length a ≡ prefix_length b) × (a.distance ≤ b.distance))

abbrev pub AllNotWorse : Route → List Route → Type 0
AllNotWorse a [] = Unit
AllNotWorse a (b ∷ rest) = NotWorse a b × AllNotWorse a rest

abbrev pub IsSorted : List Route → Type 0
IsSorted [] = Unit
IsSorted (a ∷ rest) = AllNotWorse a rest × IsSorted rest

NotWorse-trans : (a b c : Route) → NotWorse a b → NotWorse b c → NotWorse a c
NotWorse-trans a b c h k = ground arith

before-NotWorse : (a b : Route) → before a b ≡ true → NotWorse a b
unfolding before
before-NotWorse a b h = ground arith

not_before-NotWorse : (a b : Route) → before b a ≡ false → NotWorse a b
unfolding before
not_before-NotWorse a b h = ground arith

AllNotWorse-trans :
    (a b : Route) (rest : List Route) → NotWorse a b → AllNotWorse b rest → AllNotWorse a rest
AllNotWorse-trans a b [] h k = tt
AllNotWorse-trans a b (c ∷ rest) h k =
    (NotWorse-trans a b c h k.0, AllNotWorse-trans a b rest h k.1)

AllNotWorse-place :
    (a route : Route) (table : List Route)
    → NotWorse a route
    → AllNotWorse a table
    → AllNotWorse a (place route table)
unfolding place
AllNotWorse-place a route [] h k = (h, tt)
AllNotWorse-place a route (other ∷ rest) h k = elim (Bool-cases (before other route)) [
  | inl e ↦ rw e (k.0, AllNotWorse-place a route rest h k.1)
  | inr e ↦ rw e (h, k)
]

place-IsSorted :
    (route : Route) (table : List Route) → IsSorted table → IsSorted (place route table)
unfolding place
place-IsSorted route [] h = (tt, tt)
place-IsSorted route (other ∷ rest) h = elim (Bool-cases (before other route)) [
  | inl e ↦ rw e (
    AllNotWorse-place other route rest (before-NotWorse other route e) h.0,
    place-IsSorted route rest h.1,
  )
  | inr e ↦
      let first = not_before-NotWorse route other e in
      rw e ((first, AllNotWorse-trans route other rest first h.0), h)
]

-- The sorted table has longer prefixes first and, among equal prefixes, smaller distances first.
pub sort_routes-IsSorted : (table : List Route) → IsSorted (sort_routes table)
unfolding sort_routes
sort_routes-IsSorted [] = tt
sort_routes-IsSorted (route ∷ rest) =
    place-IsSorted route (sort_routes rest) (sort_routes-IsSorted rest)

place-perm : (route : Route) (table : List Route) → Perm (place route table) (route ∷ table)
unfolding place
place-perm route [] = Perm.refl _
place-perm route (other ∷ rest) = elim (Bool-cases (before other route)) [
  | inl e ↦ rw e (Perm.trans (Perm.cons other (place-perm route rest)) (Perm.swap route other rest))
  | inr e ↦ rw e (Perm.refl _)
]

-- Sorting a table only reorders it: no route is lost, added or doubled.
pub sort_routes-perm : (table : List Route) → Perm (sort_routes table) table
unfolding sort_routes
sort_routes-perm [] = Perm.refl []
sort_routes-perm (route ∷ rest) =
    Perm.trans (place-perm route (sort_routes rest)) (Perm.cons route (sort_routes-perm rest))

pub AllNotWorse-Memᴰ :
    (a b : Route) (table : List Route) → AllNotWorse a table → Memᴰ b table → NotWorse a b
AllNotWorse-Memᴰ a b [] h m = absurd (Memᴰ.not-nil m)
AllNotWorse-Memᴰ a b (c ∷ rest) h m = elim (Memᴰ.cases_cons m) [
  | inl e ↦ rw e h.0
  | inr later ↦ AllNotWorse-Memᴰ a b rest h.1 later
]
