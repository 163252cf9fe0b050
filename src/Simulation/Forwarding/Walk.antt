-- ===== src/Simulation/Forwarding/Walk.antt =====
-- The walk over the switches ends: every round sees a device that it had not seen.
use networkbasicswebsite.Prelude.{
  ℕ, zero, suc, ◌<◌, inl, inr, String, List, [], ◌∷◌, Option, none, some, arith, elem, string_eq,
  pair_eq, unseen, unseen-cons-lt, length-keep, not, lookup, keys, Bool-cases, Option-cases, Ends,
  Ends-of_ne,
}
use networkbasicswebsite.Simulation.Network.{Port, SimDevice, Network, flood_into, switches_frames}
use networkbasicswebsite.Simulation.Network.FloodEnds.{flood-ne-diverged}
use networkbasicswebsite.Simulation.Network.PeersEnd.{elem-keys, length-keys}
use networkbasicswebsite.Simulation.Forwarding.Run.{M, pure}
use networkbasicswebsite.Simulation.Forwarding.Deliver.{
  port_vlan, port_with_mac, trace_switch, trace_no_port, switch_step, go_on, traverse,
  traverse_switches,
}
use networkbasicswebsite.Simulation.Forwarding.Safe.{
  IsSafe, Any, bind-IsSafe, trace_add-IsSafe, trace_fail-IsSafe,
}
use networkbasicswebsite.Simulation.Forwarding.Steps.{drop-IsQuiet, then-IsSafe, lifted-IsSafe}

flood_into-Ends :
    (net : Network) (device_id interface : String) (vlan : Option ℕ)
    → Ends (flood_into net device_id interface vlan)
unfolding flood_into
flood_into-Ends net device_id interface vlan = elim (Option-cases (lookup device_id net.devices)) [
  | inl e ↦ rw (e, flood_into) tt
  | inr (device, e) ↦ rw (e, flood_into) (Ends-of_ne _ (flood-ne-diverged net _ _ _))
]

module _ (net : Network) where
  switch_step-IsSafe :
      (device : SimDevice) (p : Port) (mac : String)
      → IsSafe net (Any net) (switch_step net device p mac)
  unfolding switch_step trace_switch trace_no_port
  switch_step-IsSafe device (device_id, interface) mac =
      let vlan = port_vlan (lookup interface device.interfaces) in
      then-IsSafe net (Any net) (trace_switch device interface vlan mac) _
        (trace_add-IsSafe net _ _ _ _ _ (λ h. cc))
        (lifted-IsSafe net (Any net) (flood_into net device_id interface vlan) _
          (flood_into-Ends net device_id interface vlan)
          (λ flooded. elim (Option-cases (port_with_mac net mac flooded)) [
            | inr (target, e) ↦ rw e (λ s v. (v, tt))
            | inl e ↦ rw e (
                then-IsSafe net (Any net) (trace_no_port device interface mac) (pure none)
                  (trace_fail-IsSafe net _ _ _ _ _ _ (drop-IsQuiet _)) (λ s v. (v, tt)))
          ]))

  go_on-IsSafe :
      (walk : Port → M (Option String)) (next : Option Port)
      → ((target : Port) → IsSafe net (Any net) (walk target))
      → IsSafe net (Any net) (go_on walk next)
  go_on-IsSafe walk none h = λ s v. (v, tt)
  go_on-IsSafe walk (some target) h = h target

  -- As many rounds as there are devices that the walk has not seen are enough.
  traverse-IsSafe :
      (fuel : ℕ) (seen : List String) (mac : String) (p : Port)
      → unseen (keys net.devices) seen < fuel
      → IsSafe net (Any net) (traverse fuel net seen mac p)
  unfolding traverse
  traverse-IsSafe zero seen mac p h = absurd (omega arith)
  traverse-IsSafe (suc fuel) seen mac p h = elim (Bool-cases (elem p.0 seen)) [
    | inl e ↦ rw (e, traverse) (λ s v. (v, tt))
    | inr new ↦ elim (Option-cases (lookup p.0 net.devices)) [
      | inl e ↦ rw (new, e, traverse) (λ s v. (v, tt))
      | inr (device, e) ↦ elim (Bool-cases (switches_frames device)) [
        | inr k ↦ rw (new, e, k, traverse) (λ s v. (v, tt))
        | inl k ↦
            let smaller =
              unseen-cons-lt (keys net.devices) seen p.0 (elem-keys p.0 device net.devices e) new in
            let again : (target : Port)
                → IsSafe net (Any net) (traverse fuel net (p.0 ∷ seen) mac target) =
              λ target. traverse-IsSafe fuel (p.0 ∷ seen) mac target (omega (arith, smaller)) in
            rw (new, e, k, traverse)
              (bind-IsSafe net (Any net) (Any net) (switch_step net device p mac)
                (λ next. go_on (traverse fuel net (p.0 ∷ seen) mac) next)
                (switch_step-IsSafe device p mac)
                (λ next _. go_on-IsSafe (traverse fuel net (p.0 ∷ seen) mac) next again))
      ]
    ]
  ]

  pub traverse_switches-IsSafe :
      (p : Port) (mac : String) → IsSafe net (Any net) (traverse_switches net p mac)
  unfolding traverse_switches
  traverse_switches-IsSafe p mac = traverse-IsSafe _ [] mac p (
      omega (arith, length-keep (λ q. not (elem q [])) (keys net.devices), length-keys net.devices))
