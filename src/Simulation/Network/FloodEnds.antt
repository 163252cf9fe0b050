-- ===== src/Simulation/Network/FloodEnds.antt =====
-- The `while` loop of `_flood` ends within `flood_fuel` rounds.
use networkbasicswebsite.Prelude.{
  ℕ, zero, suc, ◌+◌, ◌*◌, ◌≤◌, ◌≡◌, refl, ap, String, true, not, List, [], ◌∷◌, ◌++◌, map, Option,
  some, inl, inr, arith, string_eq, pair_eq, elem, elem-head, elem-cons, length, unseen,
  unseen-cons-lt, length-append, length-keep, Dict, lookup, Bool-cases, Option-cases, List-cases,
  ok, raise, diverged, ◌≢◌,
}
use networkbasicswebsite.Simulation.Network.Types.{
  Port, SimInterface, SimDevice, Network, switches_frames,
}
use networkbasicswebsite.Simulation.Network.Queries.{peer_of}
use networkbasicswebsite.Simulation.Network.Flood.{
  Arrival, admit, exits_over, exits, FloodState, enqueue, forwarded, flood_step, flood_loop,
  port_count, cable_ends, flood_fuel, flood,
}
use networkbasicswebsite.Simulation.Network.Cabling.{peer_of-cable_ends, length-le-port_count}

-- Every queued port is in `universe`.
abbrev Within : List Port → List Arrival → Type 0
Within universe [] = Unit
Within universe ((p, vlan) ∷ rest) = (elem p universe ≡ true) × Within universe rest

Within-append :
    (universe : List Port) (xs ys : List Arrival)
    → Within universe xs
    → Within universe ys
    → Within universe (xs ++ ys)
Within-append universe [] ys h k = k
Within-append universe ((p, vlan) ∷ xs) ys h k = (h.0, Within-append universe xs ys h.1 k)

abbrev Inside : List Port → List Port → Type 0
Inside universe [] = Unit
Inside universe (p ∷ ps) = (elem p universe ≡ true) × Inside universe ps

length-enqueue :
    (seen : List Port) (vlan : Option ℕ) (ps : List Port)
    → length (enqueue seen vlan ps) ≤ length ps
unfolding enqueue
length-enqueue seen vlan [] = omega arith
length-enqueue seen vlan (p ∷ ps) = ground (arith, length-enqueue seen vlan ps)

Within-enqueue :
    (universe seen : List Port) (vlan : Option ℕ) (ps : List Port)
    → Inside universe ps
    → Within universe (enqueue seen vlan ps)
unfolding enqueue
Within-enqueue universe seen vlan [] h = tt
Within-enqueue universe seen vlan (p ∷ ps) h =
    ground (arith, Within-enqueue universe seen vlan ps h.1)

module _ (net : Network) where
  length-exits_over :
      (device_id name : String) (vlan : Option ℕ) (ports : Dict String SimInterface)
      → length (exits_over net device_id name vlan ports) ≤ length ports
  unfolding exits_over
  length-exits_over device_id name vlan [] = omega arith
  length-exits_over device_id name vlan ((other, port) ∷ rest) =
      ground (arith, length-exits_over device_id name vlan rest)

  -- `universe` holds every end of a cable
  module _ (universe : List Port)
      (ends : (q : Port) → elem q (cable_ends net.links) ≡ true → elem q universe ≡ true) where
    Inside-exits_over :
        (device_id name : String) (vlan : Option ℕ) (ports : Dict String SimInterface)
        → Inside universe (exits_over net device_id name vlan ports)
    unfolding exits_over
    Inside-exits_over device_id name vlan [] = tt
    Inside-exits_over device_id name vlan ((other, port) ∷ rest) =
        elim (Option-cases (peer_of net device_id other)) [
          | inl e ↦ ground (arith, Inside-exits_over device_id name vlan rest)
          | inr (q, e) ↦ ground (
            arith,
            Inside-exits_over device_id name vlan rest,
            ends q,
            peer_of-cable_ends net device_id other q,
          )
        ]

    -- The work left: entries in the queue, and the most that unseen ports may add.
    abbrev work : FloodState → ℕ
    work s = length s.queue + unseen universe s.seen * port_count net.devices

    abbrev Fits : FloodState → Type 0
    Fits s = Within universe s.queue

    forwarded_fits :
        (device : SimDevice) (p : Port) (vlan : Option ℕ) (seen : List Port)
        → lookup p.0 net.devices ≡ some device
        → Within universe (forwarded net device p vlan seen)
          × (length (forwarded net device p vlan seen) ≤ port_count net.devices)
    unfolding exits
    forwarded_fits device (id, name) vlan seen h = elim (Bool-cases (switches_frames device)) [
      | inl e ↦ rw e (
        Within-enqueue universe seen vlan _ (Inside-exits_over id name vlan device.interfaces),
        omega (
          arith,
          length-enqueue seen vlan (exits_over net id name vlan device.interfaces),
          length-exits_over id name vlan device.interfaces,
          length-le-port_count id device net.devices h,
        ),
      )
      | inr e ↦ rw e (tt, omega arith)
    ]

    admit-lookup :
        (p : Port) (vlan vlan' : Option ℕ) (device : SimDevice)
        → admit net p vlan ≡ some (device, vlan')
        → lookup p.0 net.devices ≡ some device
    unfolding admit
    admit-lookup (id, name) vlan vlan' device h = elim (Option-cases (lookup id net.devices)) [
      | inl e ↦ ground arith
      | inr (found, e) ↦ ground arith
    ]

    mul_step : (t u u' : ℕ) → suc u' ≤ u → u' * t + t ≤ u * t
    mul_step t u u' h = grind arith

    step_works :
        (p : Port) (vlan : Option ℕ) (rest : List Arrival) (s : FloodState)
        → elem p universe ≡ true
        → Within universe rest
        → Fits (flood_step net p vlan rest s)
          × (work (flood_step net p vlan rest s)
              ≤ length rest + unseen universe s.seen * port_count net.devices)
    unfolding flood_step
    step_works p vlan rest s inside within = elim (Bool-cases (elem p s.seen)) [
      | inl old ↦ rw old (within, omega arith)
      | inr new ↦
          let fewer = unseen-cons-lt universe s.seen p inside new in
          let t = port_count net.devices in
          let bound = mul_step t (unseen universe s.seen) (unseen universe (p ∷ s.seen)) fewer in
          elim (Option-cases (admit net p vlan)) [
            | inl e ↦ rw (new, e) (within, omega (arith, bound))
            | inr ((device, vlan'), e) ↦
                let found = admit-lookup p vlan vlan' device e in
                let (fits, short) = forwarded_fits device p vlan' (p ∷ s.seen) found in
                rw (new, e)
                  (
                    Within-append universe rest _ within fits,
                    omega (
                      arith,
                      bound,
                      length-append rest (forwarded net device p vlan' (p ∷ s.seen)),
                    ),
                  )
          ]
    ]

    loop_ends :
        (fuel : ℕ) (s : FloodState)
        → Fits s
        → work s ≤ fuel
        → (ports : List Port) × (flood_loop fuel net s ≡ ok ports)
    unfolding flood_loop flood_step
    loop_ends zero s fits h = elim (List-cases s.queue) [
      | inl empty ↦ (s.reached, rw empty)
      | inr ((p, vlan), rest, e) ↦ absurd (omega (arith, ap length e))
    ]
    loop_ends (suc fuel) s fits h = elim (List-cases s.queue) [
      | inl empty ↦ (s.reached, rw empty)
      | inr ((p, vlan), rest, e) ↦
          let (inside, within) = rw e at fits in
          let (fits', falls) = step_works p vlan rest s inside within in
          rw e (loop_ends fuel (flood_step net p vlan rest s) fits' (omega (arith, ap length e)))
    ]

elem-append_right : (q : Port) (xs ys : List Port) → elem q ys ≡ true → elem q (xs ++ ys) ≡ true
elem-append_right q [] ys h = h
elem-append_right q (x ∷ xs) ys h = ground (arith, elem-append_right q xs ys h)

Within-weaken :
    (universe : List Port) (q : Port) (xs : List Arrival)
    → Within universe xs
    → Within (q ∷ universe) xs
Within-weaken universe q [] h = tt
Within-weaken universe q ((p, vlan) ∷ xs) h =
    (elem-cons p q universe h.0, Within-weaken universe q xs h.1)

Within-seeds :
    (seeds ends : List Port) (vlan : Option ℕ) → Within (seeds ++ ends) (map (λ p. (p, vlan)) seeds)
Within-seeds [] ends vlan = tt
Within-seeds (p ∷ ps) ends vlan =
    (elem-head p (ps ++ ends), Within-weaken (ps ++ ends) p _ (Within-seeds ps ends vlan))

length-map_seeds :
    (seeds : List Port) (vlan : Option ℕ)
    → length (map {B = Arrival} (λ p. (p, vlan)) seeds) ≡ length seeds
length-map_seeds [] vlan = refl
length-map_seeds (p ∷ ps) vlan = ap suc (length-map_seeds ps vlan)

mul_mono : (t u v : ℕ) → u ≤ v → u * t ≤ v * t
mul_mono t u v h = grind arith

-- The walk of a frame through the switches ends, from any seeds in any network: the fuel suffices.
pub flood_returns :
    (net : Network) (seeds : List Port) (vlan : Option ℕ) (visited : List Port)
    → (ports : List Port) × (flood net seeds vlan visited ≡ ok ports)
unfolding flood flood_fuel
flood_returns net seeds vlan visited =
    let ends = cable_ends net.links in
    let universe = seeds ++ ends in
    let bound =
      mul_mono (port_count net.devices) (unseen universe visited) (length seeds + length ends) (
        omega
          (arith, length-keep (λ q. not (elem q visited)) universe, length-append seeds ends)) in
    loop_ends net universe (λ q. elem-append_right q seeds ends) _ _ (Within-seeds seeds ends vlan)
      (omega (arith, bound, length-map_seeds seeds vlan))

-- So `diverged` is never raised.
pub flood-ne-diverged :
    (net : Network) (seeds : List Port) (vlan : Option ℕ) (visited : List Port)
    → flood net seeds vlan visited ≢ raise diverged
flood-ne-diverged net seeds vlan visited h =
    let (ports, e) = flood_returns net seeds vlan visited in cc
