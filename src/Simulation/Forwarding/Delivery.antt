-- ===== src/Simulation/Forwarding/Delivery.antt =====
-- `deliver` ends, and what its outcome promises.
use networkbasicswebsite.Prelude.{
  ℕ, zero, suc, ◌+◌, ◌-◌, ◌≤◌, ◌<◌, ◌≡◌, refl, ◌⊎◌, inl, inr, String, true, false, not, ◌&&◌,
  Option, none, some, arith, leb, string_eq, pair_eq, lookup, Bool-cases, Option-cases, required,
  Ends-required,
}
use networkbasicswebsite.Simulation.Network.{
  Port, SimInterface, SimDevice, Network, routes_ip, owns_address, peer_of,
}
use networkbasicswebsite.Simulation.Forwarding.Run.{M, pure, lift, trace_fail}
use networkbasicswebsite.Simulation.Forwarding.Arp.{resolve_arp}
use networkbasicswebsite.Simulation.Forwarding.Egress.{Egress, choose_egress}
use networkbasicswebsite.Simulation.Forwarding.Deliver.{
  DeliveryOutcome, undelivered, Packet, Hop, stop, move, trace_deliver, trace_forward, age, land,
  cross, send, leave, hop, hop_on, deliver_loop, max_hops, traverse_switches,
}
use networkbasicswebsite.Simulation.Forwarding.Safe.{
  IsSafe, Any, pure-IsSafe, lift-IsSafe, bind-IsSafe, trace_add-IsSafe, trace_fail-IsSafe,
}
use networkbasicswebsite.Simulation.Forwarding.Steps.{
  drop-IsQuiet, then-IsSafe, choose_egress-IsSafe,
}
use networkbasicswebsite.Simulation.Forwarding.ArpSound.{Answer, resolve_arp-IsSafe}
use networkbasicswebsite.Simulation.Forwarding.Walk.{traverse_switches-IsSafe}

-- The device is the source or one of the network's.
abbrev pub IsKnown : Network → SimDevice → SimDevice → Type 0
IsKnown net source device =
    (device ≡ source) ⊎ ((id : String) × (lookup id net.devices ≡ some device))

-- What an outcome promises: the packet is reported as delivered only at a device that owns the
-- destination address, and a failure names its reason.
pub record IsHonest (net : Network) (source : SimDevice) (destination_ip : String)
    (outcome : DeliveryOutcome) : Type 0 where
  pub arrived :
      outcome.delivered ≡ true
      → (device : SimDevice) × IsKnown net source device
        × (outcome.final_device ≡ some device.id)
        × (owns_address device destination_ip ≡ true)
  pub explained : outcome.delivered ≡ false → (reason : String) × (outcome.reason ≡ some reason)
  pub bounded : outcome.hops ≤ max_hops

pub undelivered-IsHonest :
    (net : Network) (source : SimDevice) (destination_ip reason : String) (hint : Option String)
    (hops : ℕ) (final_device : Option String)
    → hops ≤ max_hops
    → IsHonest net source destination_ip (undelivered reason hint hops final_device)
undelivered-IsHonest net source destination_ip reason hint hops final_device h = record {
  arrived = λ e. cc;
  explained = λ e. (reason, refl);
  bounded = h;
}

module _ (net : Network) (source : SimDevice) (packet : Packet) where
  -- What a hop with this TTL guarantees.
  abbrev HopPost : ℕ → Hop → Type 0
  HopPost ttl (stop outcome) = IsHonest net source packet.destination_ip outcome
  HopPost ttl (move next left) = IsKnown net source next × (ttl ≤ left + 1)

  age-IsSafe :
      (next : SimDevice) (ttl hops : ℕ)
      → IsKnown net source next
      → 1 < ttl
      → IsSafe net (HopPost ttl) (age packet next ttl hops)
  unfolding age
  age-IsSafe next ttl hops known h =
      elim (Bool-cases (routes_ip next && not (owns_address next packet.destination_ip))) [
        | inr e ↦ rw e (pure-IsSafe net (HopPost ttl) (move next ttl) (known, omega arith))
        | inl e ↦ elim (Bool-cases (leb (ttl - 1) 0)) [
          | inl expired ↦ absurd (ground (arith, expired))
          | inr alive ↦
              rw (e, alive)
                (pure-IsSafe net (HopPost ttl) (move next (ttl - 1)) (known, omega arith))
        ]
      ]

  module _ (current : SimDevice) (ttl hops : ℕ) (lives : 1 < ttl) (few : hops ≤ max_hops) where
    give_up :
        (reason : String) (hint final_device : Option String)
        → IsSafe net (HopPost ttl) (pure (stop (undelivered reason hint hops final_device)))
    give_up reason hint final_device =
        pure-IsSafe net (HopPost ttl) (stop (undelivered reason hint hops final_device))
          (undelivered-IsHonest net source packet.destination_ip reason hint hops final_device few)

    land-IsSafe :
        (landed : Option String)
        → IsSafe net (HopPost ttl) (land net packet current ttl hops landed)
    unfolding land
    land-IsSafe none = give_up _ _ _
    land-IsSafe (some landed) =
        bind-IsSafe net (λ next. lookup landed net.devices ≡ some next) (HopPost ttl)
          (lift (required (lookup landed net.devices))) _
          (lift-IsSafe net _ (required (lookup landed net.devices)) (Ends-required _) (λ next e.
            elim (Option-cases (lookup landed net.devices)) [
              | inl absent ↦ absurd (ground (arith, e, absent))
              | inr (device, found) ↦ ground (arith, e, found)
            ]))
          (λ next e. age-IsSafe next ttl hops (inr (landed, e)) lives)

    cross-IsSafe :
        (egress : SimInterface) (next_hop mac : String) (peer : Option Port)
        → IsSafe net (HopPost ttl) (cross net packet current ttl hops egress next_hop mac peer)
    unfolding cross trace_forward
    cross-IsSafe egress next_hop mac none =
        then-IsSafe net (HopPost ttl) (trace_fail _ _ _ _ _ _) _
          (trace_fail-IsSafe net _ _ _ _ _ _ (drop-IsQuiet _)) (give_up _ _ _)
    cross-IsSafe egress next_hop mac (some peer) =
        then-IsSafe net (HopPost ttl)
          (trace_forward net packet current egress next_hop mac peer ttl) _
          (trace_add-IsSafe net _ _ _ _ _ (λ h. cc))
          (bind-IsSafe net (Any net) (HopPost ttl) (traverse_switches net peer mac) _
            (traverse_switches-IsSafe net peer mac) (λ landed _. land-IsSafe landed))

    send-IsSafe :
        (egress : SimInterface) (next_hop : String) (mac : Option String)
        → IsSafe net (HopPost ttl) (send net packet current ttl hops egress next_hop mac)
    unfolding send
    send-IsSafe egress next_hop none = give_up _ _ _
    send-IsSafe egress next_hop (some mac) =
        cross-IsSafe egress next_hop mac (peer_of net current.id egress.name)

    leave-IsSafe :
        (egress : Egress) → IsSafe net (HopPost ttl) (leave net packet current ttl hops egress)
    unfolding leave
    leave-IsSafe none = give_up _ _ _
    leave-IsSafe (some (egress, next_hop)) =
        bind-IsSafe net (Answer net current.id next_hop) (HopPost ttl)
          (resolve_arp net current egress next_hop) _
          (resolve_arp-IsSafe net current egress next_hop)
          (λ mac _. send-IsSafe egress next_hop mac)

    hop-IsSafe :
        IsKnown net source current → IsSafe net (HopPost ttl) (hop net packet current ttl hops)
    unfolding hop trace_deliver
    hop-IsSafe known = elim (Bool-cases (owns_address current packet.destination_ip)) [
      | inl owns ↦
          rw (owns, hop)
            (then-IsSafe net (HopPost ttl) (trace_deliver packet current ttl) _
              (trace_add-IsSafe net _ _ _ _ _ (λ h. cc))
              (pure-IsSafe net (HopPost ttl)
                (stop (record {
                  delivered = true;
                  reason = none;
                  hint = none;
                  hops = hops;
                  final_device = some current.id;
                }))
                (record {
                  arrived = λ e. (current, known, refl, owns);
                  explained = λ e. cc;
                  bounded = few;
                })))
      | inr other ↦
          rw (other, hop)
            (bind-IsSafe net (Any net) (HopPost ttl)
              (choose_egress net current packet.destination_ip) _
              (choose_egress-IsSafe net current packet.destination_ip)
              (λ egress _. leave-IsSafe egress))
    ]

  hop_on-IsSafe :
      (walk : SimDevice → ℕ → M DeliveryOutcome) (ttl : ℕ) (ended : Hop)
      → HopPost ttl ended
      → ((next : SimDevice) (left : ℕ)
          → IsKnown net source next
          → ttl ≤ left + 1
          → IsSafe net (IsHonest net source packet.destination_ip) (walk next left))
      → IsSafe net (IsHonest net source packet.destination_ip) (hop_on walk ended)
  hop_on-IsSafe walk ttl (stop outcome) h k =
      pure-IsSafe net (IsHonest net source packet.destination_ip) outcome h
  hop_on-IsSafe walk ttl (move next left) h k = k next left h.0 h.1

  -- More TTL than rounds: the TTL does not expire.
  pub deliver_loop-IsSafe :
      (rounds : ℕ) (current : SimDevice) (ttl hops : ℕ)
      → IsKnown net source current
      → rounds < ttl
      → rounds + hops ≤ max_hops
      → IsSafe net
          (IsHonest net source packet.destination_ip)
          (deliver_loop rounds net packet current ttl hops)
  unfolding deliver_loop
  deliver_loop-IsSafe zero current ttl hops known lives few =
      pure-IsSafe net (IsHonest net source packet.destination_ip) _
        (undelivered-IsHonest net source packet.destination_ip _ _ hops none (omega arith))
  deliver_loop-IsSafe (suc rounds) current ttl hops known lives few =
      bind-IsSafe net (HopPost ttl) (IsHonest net source packet.destination_ip)
        (hop net packet current ttl (hops + 1)) _
        (hop-IsSafe current ttl (hops + 1) (omega arith) (omega arith) known)
        (λ ended post.
          hop_on-IsSafe (λ next left. deliver_loop rounds net packet next left (hops + 1)) ttl ended
            post
            (λ next left next_known aged.
              deliver_loop-IsSafe rounds next left (hops + 1) next_known (omega arith)
                (omega arith)))
