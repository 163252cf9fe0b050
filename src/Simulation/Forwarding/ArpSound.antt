-- ===== src/Simulation/Forwarding/ArpSound.antt =====
-- `resolve_arp` keeps the invariant of a run, and answers only what a live port holds.
use networkbasicswebsite.Prelude.{
  ◌≡◌, refl, ap, inl, inr, String, true, List, [], ◌∷◌, Option, none, some, arith, elem, elem-head,
  elem-cons, string_eq, pair_eq, option_eq, lookup, ◌==◌, Bool-cases, Option-cases, ok, Ends-of_ne,
}
use networkbasicswebsite.Text.{present}
use networkbasicswebsite.Simulation.Network.{
  Port, SimInterface, SimDevice, Network, broadcast_domain,
}
use networkbasicswebsite.Simulation.Network.FloodEnds.{flood-ne-diverged}
use networkbasicswebsite.Simulation.Forwarding.Run.{pure, lift, get_arp, set_arp, trace_fail}
use networkbasicswebsite.Simulation.Forwarding.Arp.{
  trace_request, trace_reply, trace_cached, settle_arp, ask_arp, resolve_arp, egress_vlan,
  first_answer, answer_on, arp_failure_detail,
}
use networkbasicswebsite.Simulation.Forwarding.Details.{arp_failure_detail-Ends}
use networkbasicswebsite.Simulation.Forwarding.Safe.{
  arp_timeout-IsQuiet, IsAnswered, IsArpSound, IsSafe, pure-IsSafe, lift-IsSafe, bind-IsSafe,
  trace_add-IsSafe, trace_fail-IsSafe, get_arp-IsSafe, set_arp-IsSafe, insert-IsArpSound,
}
use networkbasicswebsite.Simulation.Forwarding.Steps.{then-IsSafe, lifted-IsSafe}

-- A live port of the list that holds the address, with its device.
record IsHolder (net : Network) (target_ip : String) (domain : List Port)
    (found : SimDevice × SimInterface) : Type 0 where
  at : Port
  in_domain : elem at domain ≡ true
  known : lookup at.0 net.devices ≡ some found.0
  present : lookup at.1 found.0.interfaces ≡ some found.1
  up : found.1.enabled ≡ true
  holds : found.1.ip ≡ some target_ip

present-some :
    (text : Option String) (shown : String) → present text ≡ some shown → text ≡ some shown
present-some none shown h = cc
present-some (some s) shown h = ground (arith, h)

eq_of_beq-some :
    (text : Option String) (target : String) → (text == some target) ≡ true → text ≡ some target
eq_of_beq-some none target h = cc
eq_of_beq-some (some s) target h = ap some ((string_eq.eqb_iff s target).0 h)

answer_on-holds :
    (device : Option SimDevice) (interface target_ip : String) (found : SimDevice × SimInterface)
    → answer_on device interface target_ip ≡ some found
    → (device ≡ some found.0)
      × (lookup interface found.0.interfaces ≡ some found.1)
      × (found.1.enabled ≡ true)
      × (found.1.ip ≡ some target_ip)
answer_on-holds none interface target_ip found h = cc
answer_on-holds (some peer) interface target_ip (peer', port') h =
    elim (Option-cases (lookup interface peer.interfaces)) [
      | inl e ↦ absurd (ground arith)
      | inr (port, e) ↦ elim (Bool-cases port.enabled) [
        | inr down ↦ absurd (ground arith)
        | inl up ↦ elim (Bool-cases (port.ip == some target_ip)) [
          | inr other ↦ absurd (ground arith)
          | inl same ↦
              let holds : port.ip ≡ some target_ip = eq_of_beq-some port.ip target_ip same in
              ground (arith, up, e)
        ]
      ]
    ]

first_answer-IsHolder :
    (net : Network) (target_ip : String) (domain : List Port) (found : SimDevice × SimInterface)
    → first_answer net target_ip domain ≡ some found
    → IsHolder net target_ip domain found
unfolding first_answer
first_answer-IsHolder net target_ip [] found h = cc
first_answer-IsHolder net target_ip ((device_id, interface) ∷ rest) found h =
    elim (Option-cases (answer_on (lookup device_id net.devices) interface target_ip)) [
      | inr (answer, e) ↦
          let same : answer ≡ found = ground (arith, h) in
          let (known, here, up, holds) =
            answer_on-holds (lookup device_id net.devices) interface target_ip found
              (rw same at e) in
          record {
            at = (device_id, interface);
            in_domain = elem-head (device_id, interface) rest;
            known = known;
            present = here;
            up = up;
            holds = holds;
          }
      | inl e ↦
          let later = first_answer-IsHolder net target_ip rest found (ground (arith, h)) in
          record {
            at = later.at;
            in_domain = elem-cons later.at (device_id, interface) rest later.in_domain;
            known = later.known;
            present = later.present;
            up = later.up;
            holds = later.holds;
          }
    ]

-- An address that `resolve_arp` returns was answered; None promises nothing.
abbrev pub Answer : Network → String → String → Option String → Type 0
Answer net device_id ip none = Unit
Answer net device_id ip (some mac) = IsAnswered net device_id ip mac

module _ (net : Network) (device : SimDevice) (egress : SimInterface) (target_ip : String) where
  settle_arp-IsSafe :
      (domain : List Port)
      → broadcast_domain net device.id egress.name (egress_vlan egress) ≡ ok domain
      → IsSafe net
          (Answer net device.id target_ip)
          (settle_arp net device egress target_ip (first_answer net target_ip domain))
  unfolding settle_arp trace_reply
  settle_arp-IsSafe domain flooded = elim (Option-cases (first_answer net target_ip domain)) [
    | inl e ↦ rw e (
        lifted-IsSafe net (Answer net device.id target_ip)
          (arp_failure_detail net device egress target_ip) _
          (arp_failure_detail-Ends net device egress target_ip)
          (λ detail.
            then-IsSafe net (Answer net device.id target_ip) (trace_fail _ _ _ _ _ _) (pure none)
              (trace_fail-IsSafe net _ _ _ _ _ _ (arp_timeout-IsQuiet target_ip))
              (pure-IsSafe net (Answer net device.id target_ip) none tt)))
    | inr ((peer, port), e) ↦
        let holder = first_answer-IsHolder net target_ip domain (peer, port) e in
        let answered : IsAnswered net device.id target_ip port.mac = record {
          egress = egress.name;
          vlan = egress_vlan egress;
          domain = domain;
          flooded = flooded;
          at = holder.at;
          in_domain = holder.in_domain;
          peer = peer;
          port = port;
          known = holder.known;
          present = holder.present;
          up = holder.up;
          holds = holder.holds;
          mac_of = refl;
        } in
        rw e (
          bind-IsSafe net (IsArpSound net) (Answer net device.id target_ip) get_arp _
            (get_arp-IsSafe net)
            (λ cache sound.
              then-IsSafe net (Answer net device.id target_ip) (set_arp _) _
                (set_arp-IsSafe net _
                  (insert-IsArpSound net device.id target_ip port.mac cache sound answered))
                (then-IsSafe net (Answer net device.id target_ip)
                  (trace_reply net device egress target_ip peer port) (pure (some port.mac))
                  (trace_add-IsSafe net _ _ _ _ _ (λ h. cc))
                  (pure-IsSafe net (Answer net device.id target_ip) (some port.mac) answered))))
  ]

  ask_arp-IsSafe : IsSafe net (Answer net device.id target_ip) (ask_arp net device egress target_ip)
  unfolding ask_arp trace_request broadcast_domain
  ask_arp-IsSafe =
      then-IsSafe net (Answer net device.id target_ip) (trace_request net device egress target_ip) _
        (trace_add-IsSafe net _ _ _ _ _ (λ h. cc))
        (bind-IsSafe net
          (λ domain. broadcast_domain net device.id egress.name (egress_vlan egress) ≡ ok domain)
          (Answer net device.id target_ip)
          (lift (broadcast_domain net device.id egress.name (egress_vlan egress))) _
          (lift-IsSafe net _ (broadcast_domain net device.id egress.name (egress_vlan egress))
            (Ends-of_ne _ (flood-ne-diverged net _ _ _)) (λ domain e. e))
          settle_arp-IsSafe)

  -- From a valid state `resolve_arp` ends in a valid state, without running out of fuel, also where
  -- it raises an exception. A MAC that it returns, cached or asked for, belongs to a port that is
  -- up, has the address, and lies in a broadcast domain of the device.
  pub resolve_arp-IsSafe :
      IsSafe net (Answer net device.id target_ip) (resolve_arp net device egress target_ip)
  unfolding resolve_arp trace_cached
  resolve_arp-IsSafe =
      bind-IsSafe net (IsArpSound net) (Answer net device.id target_ip) get_arp _
        (get_arp-IsSafe net)
        (λ cache sound. elim (Option-cases (present (lookup (device.id, target_ip) cache))) [
          | inl e ↦ rw e ask_arp-IsSafe
          | inr (mac, e) ↦
              let stored : lookup (device.id, target_ip) cache ≡ some mac =
                present-some (lookup (device.id, target_ip) cache) mac e in
              rw e (
                then-IsSafe net (Answer net device.id target_ip)
                  (trace_cached device egress target_ip mac) (pure (some mac))
                  (trace_add-IsSafe net _ _ _ _ _ (λ h. cc))
                  (pure-IsSafe net (Answer net device.id target_ip) (some mac)
                    (sound device.id target_ip mac stored)))
        ])
