-- ===== src/Simulation/Network/FloodExact/Result.antt =====
-- What `_flood` returns for a frame with a known VLAN.
use mathlib.Core.List.Memᴰ
use networkbasicswebsite.Prelude.{
  ℕ, zero, suc, ◌≡◌, ap, ◌↔◌, inl, inr, true, false, List, [], ◌∷◌, map, Option, some, arith, ◌==◌,
  string_eq, pair_eq, elem, elem-cons, Memᴰ, Bool-cases, Option-cases, List-cases, ok,
}
use networkbasicswebsite.Simulation.Network.Types.{Port, port_beq_iff, SimDevice, Network}
use networkbasicswebsite.Simulation.Network.Flood.{
  Arrival, admit, exits, FloodState, flood_step, flood_loop, flood,
}
use networkbasicswebsite.Simulation.Network.Broadcast.{
  LetsIn, Arrives, seed, hop, LetsIn-of_Admits, Admits-of_LetsIn, elem-exits_over,
}
use networkbasicswebsite.Simulation.Network.FloodExact.Rounds.{
  Distinct, Inv, Inv-again, Inv-dropped, Inv-reached,
}

module _ (net : Network) (vlan : ℕ) (seeds visited : List Port) where
  step-Inv :
      (p : Port) (arriving : Option ℕ) (rest : List Arrival) (s : FloodState)
      → s.queue ≡ (p, arriving) ∷ rest
      → Inv net vlan seeds visited s
      → Inv net vlan seeds visited (flood_step net p arriving rest s)
  unfolding flood_step
  step-Inv p arriving rest s head inv = elim (Bool-cases (elem p s.seen)) [
    | inl old ↦ rw old (Inv-again net vlan seeds visited p arriving rest s head inv old)
    | inr new ↦ elim (Option-cases (admit net p arriving)) [
      | inl refused ↦
          rw (new, refused)
            (Inv-dropped net vlan seeds visited p arriving rest s head inv new refused)
      | inr ((device, vlan'), let_in) ↦
          rw (new, let_in)
            (Inv-reached net vlan seeds visited p arriving rest s head inv device vlan' new let_in)
    ]
  ]

  -- The invariant holds when the loop returns, with an empty queue.
  loop-Inv :
      (fuel : ℕ) (s : FloodState) (ports : List Port)
      → Inv net vlan seeds visited s
      → flood_loop fuel net s ≡ ok ports
      → (t : FloodState) × Inv net vlan seeds visited t × (t.queue ≡ []) × (t.reached ≡ ports)
  unfolding flood_loop
  loop-Inv zero s ports inv h = elim (List-cases s.queue) [
    | inl empty ↦ (s, inv, empty, ground arith)
    | inr (a, rest, e) ↦ absurd (ground arith)
  ]
  loop-Inv (suc fuel) s ports inv h = elim (List-cases s.queue) [
    | inl empty ↦ (s, inv, empty, ground arith)
    | inr ((p, arriving), rest, e) ↦
        loop-Inv fuel (flood_step net p arriving rest s) ports (step-Inv p arriving rest s e inv)
          (ground arith)
  ]

  queued_seeds :
      (ps : List Port) (q : Port)
      → elem q ps ≡ true
      → Memᴰ {A = Arrival} (q, some vlan) (map (λ p. (p, some vlan)) ps)
  queued_seeds [] q h = cc
  queued_seeds (p ∷ ps) q h = elim (Bool-cases (q == p)) [
    | inl same ↦ Memᴰ.head (ap (λ (r : Port). (r, some vlan)) ((port_beq_iff q p).0 same))
    | inr differs ↦ Memᴰ.tail (queued_seeds ps q (ground arith))
  ]

  seeds_queued :
      (ps : List Port) (q : Port) (w : Option ℕ)
      → Memᴰ {A = Arrival} (q, w) (map (λ p. (p, some vlan)) ps)
      → (w ≡ some vlan) × (elem q ps ≡ true)
  seeds_queued [] q w m = absurd (Memᴰ.not-nil m)
  seeds_queued (p ∷ ps) q w m = elim (Memᴰ.cases_cons m) [
    | inl e ↦
        (ap (λ (a : Arrival). a.1) e, ground (arith, ap (λ (a : Arrival). a.0) e, port_beq_iff q p))
    | inr later ↦ let (tag, listed) = seeds_queued ps q w later in (tag, elem-cons q p ps listed)
  ]

  start-Inv :
      Inv net vlan seeds visited
        (record { seen = visited; queue = map (λ p. (p, some vlan)) seeds; reached = [] })
  start-Inv = record {
    sound = λ q h. cc;
    waiting = λ q w m. let (tag, listed) = seeds_queued seeds q w m in (tag, seed listed);
    taken = λ q h. inl h;
    seeded = λ q h. inr (queued_seeds seeds q h);
    closed = λ p q device r a w e. cc;
    barred = λ q h. h;
    marked = λ q h. cc;
    once = tt;
  }

  -- With an empty queue, all that arrives has been seen.
  arrived-seen :
      (t : FloodState)
      → Inv net vlan seeds visited t
      → t.queue ≡ []
      → {q : Port} → Arrives net vlan seeds visited q
      → elem q t.seen ≡ true
  unfolding exits
  arrived-seen t inv empty (seed {p} h) = elim (inv.seeded p h) [
    | inl seen ↦ seen
    | inr m ↦ absurd (Memᴰ.not-nil (rw empty at m))
  ]
  arrived-seen t inv empty (hop {p} {q} {device} came passed lets switch leaves) =
      let admits = Admits-of_LetsIn net vlan p device lets in
      let seen_p = arrived-seen t inv empty came in
      let reached_p : elem p t.reached ≡ true = elim (inv.taken p seen_p) [
        | inl v ↦ absurd (cc)
        | inr r ↦ r device admits
      ] in
      elim (inv.closed p q device reached_p admits switch
        (elem-exits_over net vlan p.0 p.1 device.interfaces q leaves)) [
          | inl seen ↦ seen
          | inr m ↦ absurd (Memᴰ.not-nil (rw empty at m))
        ]

-- A flood with a known VLAN returns a port exactly if the frame arrives there by a walk through
-- switches, the port lets it in, and it is not one of the visited ports.
pub flood_exact :
    (net : Network) (seeds : List Port) (vlan : ℕ) (visited ports : List Port) (q : Port)
    → flood net seeds (some vlan) visited ≡ ok ports
    → (elem q ports ≡ true) ↔ (
        Arrives net vlan seeds visited q
        × (elem q visited ≡ false)
        × ((device : SimDevice) × LetsIn net vlan q device))
unfolding flood
flood_exact net seeds vlan visited ports q h =
    let (t, inv, empty, e) =
      loop-Inv net vlan seeds visited _ _ ports (start-Inv net vlan seeds visited) h in
    (
      λ m.
          let (came, new, (device, admits)) = inv.sound q (rw e m) in
          (came, new, (device, LetsIn-of_Admits net vlan q device admits)),
      λ (came, new, (device, lets)).
          let seen = arrived-seen net vlan seeds visited t inv empty came in
          rw (← e) (elim (inv.taken q seen) [
            | inl v ↦ absurd (cc)
            | inr r ↦ r device (Admits-of_LetsIn net vlan q device lets)
          ]),
    )

-- A flood with a known VLAN returns no port twice.
pub flood-Distinct :
    (net : Network) (seeds : List Port) (vlan : ℕ) (visited ports : List Port)
    → flood net seeds (some vlan) visited ≡ ok ports
    → Distinct ports
unfolding flood
flood-Distinct net seeds vlan visited ports h =
    let (t, inv, empty, e) =
      loop-Inv net vlan seeds visited _ _ ports (start-Inv net vlan seeds visited) h in
    rw e at inv.once
