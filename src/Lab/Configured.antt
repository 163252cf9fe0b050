-- ===== src/Lab/Configured.antt =====
-- The handlers of the rules that read the network: each ends, and its pass is sound.
use networkbasicswebsite.Prelude.{
  ◌≡◌, refl, subst, inl, inr, String, true, false, List, [], ◌∷◌, Option, none, some, arith, Memᴰ,
  ◌==◌, nat_eq, string_eq, option_eq, Bool-cases, Result-cases, ok, Ends-bind, >>=-eq-ok,
}
use networkbasicswebsite.Text.{present}
use networkbasicswebsite.Ipv4.{Ipv4Network, parse_network, network_beq}
use networkbasicswebsite.Config.{StaticRoute, DhcpPool}
use networkbasicswebsite.Simulation.Network.{SimInterface, SimDevice}
use networkbasicswebsite.Lab.Find.{or_word}
use networkbasicswebsite.Lab.Settings.{addressed, first_inside, inside_verdict, subnet_verdict}
use networkbasicswebsite.Lab.Tables.{
  hop_verdict, route_to, route_verdict, no_route_verdict, pool_for, pool_verdict, no_pool_verdict,
}
use networkbasicswebsite.Lab.Demands.{IsInside, IsRouted, IsPooled}
use networkbasicswebsite.Lab.Judged.{IsSound, IsJudged}
use networkbasicswebsite.Lab.Sound.{
  returned-IsJudged, Memᴰ-addressed, first_inside-Ends, first_inside-found,
}

or_word-present : (text : Option String) (t : String) → present text ≡ some t → or_word "" text ≡ t
or_word-present text t h = rw (h, or_word) refl

inside_verdict-IsSound :
    (summary : String) (n : Ipv4Network) (ports : List SimInterface) (found : Option SimInterface)
    → IsSound ((port : SimInterface) × (found ≡ some port)) (inside_verdict summary n ports found)
inside_verdict-IsSound summary n ports none p = cc
inside_verdict-IsSound summary n ports (some port) p = (port, refl)

-- The search behind `check_in_subnet`.
within_verdict-IsSound :
    (summary : String) (n : Ipv4Network) (ports : List SimInterface) (found : Option SimInterface)
    → first_inside n (addressed ports) ≡ ok found
    → IsSound
        ((port : SimInterface) × Memᴰ port ports × IsInside n port)
        (inside_verdict summary n (addressed ports) found)
within_verdict-IsSound summary n ports none h p = cc
within_verdict-IsSound summary n ports (some port) h p =
    let (a, reads, inside, at) = first_inside-found n (addressed ports) port h in
    let (ip, held, at') = Memᴰ-addressed port ports at in
    (
      port,
      at',
      record {
        ip = ip;
        has_ip = held;
        address = a;
        reads = rw (or_word-present port.ip ip held) at reads;
        inside = inside;
      },
    )

pub ports_verdict-IsJudged :
    (device : SimDevice) (summary : String) (n : Ipv4Network) (ports found : List SimInterface)
    → addressed ports ≡ found
    → IsJudged
        ((port : SimInterface) × Memᴰ port ports × IsInside n port)
        (subnet_verdict device summary n found)
unfolding subnet_verdict
ports_verdict-IsJudged device summary n ports [] e = returned-IsJudged _ _ (λ p. cc)
ports_verdict-IsJudged device summary n ports (first ∷ rest) e = (
  Ends-bind (first_inside n (first ∷ rest)) _ (first_inside-Ends n (first ∷ rest)) (λ found. tt),
  λ v returned p.
      let (found, ran, g) = >>=-eq-ok (first_inside n (first ∷ rest)) _ returned in
      let verdict : inside_verdict summary n (first ∷ rest) found ≡ v = ground (arith, g) in
      within_verdict-IsSound summary n ports found (rw e ran) (rw (e, verdict) p),
)

pub hop_verdict-IsSound :
    (summary : String) (next_hop : Option String) (route : StaticRoute)
    → IsSound
        ((h : String) → present next_hop ≡ some h → route.next_hop ≡ some h)
        (hop_verdict summary next_hop route)
hop_verdict-IsSound summary next_hop route p h same = elim (Bool-cases (route.next_hop == some h)) [
  | inl e ↦ (option_eq.eqb_iff route.next_hop (some h)).0 e
  | inr e ↦ absurd (ground (arith, rw (same, e, hop_verdict) at p))
]

route_to-found :
    (n : Ipv4Network) (routes : List StaticRoute) (route : StaticRoute)
    → route_to n routes ≡ some route
    → (target : Ipv4Network) × (parse_network route.network route.mask ≡ ok target)
      × (network_beq target n ≡ true)
      × Memᴰ route routes
unfolding route_to
route_to-found n [] route h = cc
route_to-found n (first ∷ rest) route h =
    let on : route_to n rest ≡ some route
        → (target : Ipv4Network) × (parse_network route.network route.mask ≡ ok target)
          × (network_beq target n ≡ true)
          × Memᴰ route (first ∷ rest) =
      λ g.
        let (target, reads, same, at) = route_to-found n rest route g in
        (target, reads, same, Memᴰ.tail at) in
    elim (Result-cases (parse_network first.network first.mask)) [
      | inr (exn, e) ↦ on (rw (e, route_to) at h)
      | inl (target, e) ↦ elim (Bool-cases (network_beq target n)) [
        | inr other ↦ on (rw (e, other, route_to) at h)
        | inl same ↦
            let found : some first ≡ some route = rw (e, same, route_to) at h in
            let is : first ≡ route = ground (arith, found) in
            subst
              (λ r.
                (target : Ipv4Network) × (parse_network r.network r.mask ≡ ok target)
                × (network_beq target n ≡ true)
                × Memᴰ r (first ∷ rest))
              is (target, e, same, Memᴰ.head refl)
      ]
    ]

no_route_verdict-fails :
    (summary : String) (device : SimDevice) (routes : List StaticRoute)
    → (no_route_verdict summary device routes).passed ≡ false
no_route_verdict-fails summary device [] = refl
no_route_verdict-fails summary device (route ∷ rest) = refl

pub route_verdict-IsSound :
    (summary : String) (next_hop : Option String) (device : SimDevice) (n : Ipv4Network)
    (found : Option StaticRoute)
    → route_to n device.config.static_routes ≡ found
    → IsSound (IsRouted device n next_hop) (route_verdict summary next_hop device found)
route_verdict-IsSound summary next_hop device n none e p =
    absurd (ground (arith, p, no_route_verdict-fails summary device device.config.static_routes))
route_verdict-IsSound summary next_hop device n (some route) e p =
    let (target, reads, same, at) = route_to-found n device.config.static_routes route e in
    record {
      route = route;
      configured = at;
      target = target;
      reads = reads;
      same = same;
      hop = hop_verdict-IsSound summary next_hop route p;
    }

pool_for-found :
    (n : Ipv4Network) (pools : List DhcpPool) (pool : DhcpPool)
    → pool_for n pools ≡ some pool
    → (target : Ipv4Network) × (parse_network pool.network pool.mask ≡ ok target)
      × (network_beq target n ≡ true)
      × Memᴰ pool pools
unfolding pool_for
pool_for-found n [] pool h = cc
pool_for-found n (first ∷ rest) pool h =
    let on : pool_for n rest ≡ some pool
        → (target : Ipv4Network) × (parse_network pool.network pool.mask ≡ ok target)
          × (network_beq target n ≡ true)
          × Memᴰ pool (first ∷ rest) =
      λ g.
        let (target, reads, same, at) = pool_for-found n rest pool g in
        (target, reads, same, Memᴰ.tail at) in
    elim (Result-cases (parse_network first.network first.mask)) [
      | inr (exn, e) ↦ on (rw (e, pool_for) at h)
      | inl (target, e) ↦ elim (Bool-cases (network_beq target n)) [
        | inr other ↦ on (rw (e, other, pool_for) at h)
        | inl same ↦
            let found : some first ≡ some pool = rw (e, same, pool_for) at h in
            let is : first ≡ pool = ground (arith, found) in
            subst
              (λ r.
                (target : Ipv4Network) × (parse_network r.network r.mask ≡ ok target)
                × (network_beq target n ≡ true)
                × Memᴰ r (first ∷ rest))
              is (target, e, same, Memᴰ.head refl)
      ]
    ]

no_pool_verdict-fails :
    (summary : String) (device : SimDevice) (pools : List DhcpPool)
    → (no_pool_verdict summary device pools).passed ≡ false
no_pool_verdict-fails summary device [] = refl
no_pool_verdict-fails summary device (pool ∷ rest) = refl

pub pool_verdict-IsSound :
    (summary : String) (device : SimDevice) (n : Ipv4Network) (found : Option DhcpPool)
    → pool_for n device.config.dhcp_pools ≡ found
    → IsSound (IsPooled device n) (pool_verdict summary n device found)
pool_verdict-IsSound summary device n none e p =
    absurd (ground (arith, p, no_pool_verdict-fails summary device device.config.dhcp_pools))
pool_verdict-IsSound summary device n (some pool) e p =
    let (target, reads, same, at) = pool_for-found n device.config.dhcp_pools pool e in
    record { pool = pool; configured = at; target = target; reads = reads; same = same }
