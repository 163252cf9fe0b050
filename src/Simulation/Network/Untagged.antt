-- ===== src/Simulation/Network/Untagged.antt =====
-- The frames of hosts have no VLAN: the access port that they meet first gives them one.
use networkbasicswebsite.Prelude.{
  ℕ, suc, ◌≡◌, refl, ap, String, true, false, List, [], ◌∷◌, Option, none, some, arith, ◌==◌,
  nat_eq, string_eq, pair_eq, elem, length, ◌+◌, ◌*◌, lookup, ok, ◌↔◌,
}
use networkbasicswebsite.Config.{access}
use networkbasicswebsite.Simulation.Network.Types.{
  Port, SimInterface, SimDevice, switches_frames, Network,
}
use networkbasicswebsite.Simulation.Network.Queries.{peer_of}
use networkbasicswebsite.Simulation.Network.Flood.{
  admit, ingress, FloodState, flood_step, flood_loop, cable_ends, port_count, flood_fuel, flood,
  broadcast_domain,
}
use networkbasicswebsite.Simulation.Network.Broadcast.{Arrives, LetsIn}
use networkbasicswebsite.Simulation.Network.FloodExact.{flood_exact}

-- The port is an access port of this VLAN on a switch.
pub record IsAccess (net : Network) (p : Port) (vlan : ℕ) : Type 0 where
  pub device : SimDevice
  pub known : lookup p.0 net.devices ≡ some device
  pub switch : switches_frames device ≡ true
  pub port : SimInterface
  pub present : lookup p.1 device.interfaces ≡ some port
  pub mode : port.switchport_mode ≡ some access
  pub member : port.access_vlan ≡ vlan

nat_beq_refl : (n : ℕ) → (n == n) ≡ true
nat_beq_refl n = (nat_eq.eqb_iff n n).1 refl

admit-untagged :
    (net : Network) (p : Port) (vlan : ℕ)
    → IsAccess net p vlan
    → admit net p none ≡ admit net p (some vlan)
unfolding admit ingress
admit-untagged net (device_id, interface) vlan a =
    let same : (a.port.access_vlan == vlan) ≡ true = rw a.member (nat_beq_refl vlan) in
    ground (arith, a.known, a.present, a.switch, a.mode, a.member, same)

abbrev first_arrival : Port → List Port → Option ℕ → FloodState
first_arrival p visited vlan = record { seen = visited; queue = (p, vlan) ∷ []; reached = [] }

flood_step-untagged :
    (net : Network) (p : Port) (vlan : ℕ) (visited : List Port)
    → IsAccess net p vlan
    → flood_step net p none [] (first_arrival p visited none)
      ≡ flood_step net p (some vlan) [] (first_arrival p visited (some vlan))
unfolding flood_step
flood_step-untagged net p vlan visited a = rw (admit-untagged net p vlan a) refl

flood_loop-untagged :
    (fuel : ℕ) (net : Network) (p : Port) (vlan : ℕ) (visited : List Port)
    → IsAccess net p vlan
    → flood_loop (suc fuel) net (first_arrival p visited none)
      ≡ flood_loop (suc fuel) net (first_arrival p visited (some vlan))
unfolding flood_loop
flood_loop-untagged fuel net p vlan visited a =
    ap (flood_loop fuel net) (flood_step-untagged net p vlan visited a)

flood-untagged :
    (net : Network) (p : Port) (vlan : ℕ) (visited : List Port)
    → IsAccess net p vlan
    → flood net (p ∷ []) none visited ≡ flood net (p ∷ []) (some vlan) visited
unfolding flood flood_fuel
flood-untagged net p vlan visited a =
    let more : ℕ = (1 + length (cable_ends net.links)) * port_count net.devices in
    let some_fuel : 1 + more ≡ suc more = omega arith in
    rw some_fuel (flood_loop-untagged more net p vlan visited a)

-- A broadcast without a VLAN whose cable leads to an access port of a switch is the broadcast in that
-- port's VLAN.
pub broadcast_domain-untagged :
    (net : Network) (device_id interface : String) (p : Port) (vlan : ℕ)
    → peer_of net device_id interface ≡ some p
    → IsAccess net p vlan
    → broadcast_domain net device_id interface none
      ≡ broadcast_domain net device_id interface (some vlan)
unfolding broadcast_domain
broadcast_domain-untagged net device_id interface p vlan wired a =
    rw wired (flood-untagged net p vlan ((device_id, interface) ∷ []) a)

-- A broadcast without a VLAN whose cable leads to an access port of a switch returns a port exactly
-- if a frame of that port's VLAN arrives there by a walk through switches, the port lets it in, and
-- it is not the port that sent the broadcast.
pub broadcast_domain-exact :
    (net : Network) (device_id interface : String) (p : Port) (vlan : ℕ) (ports : List Port)
    (q : Port)
    → peer_of net device_id interface ≡ some p
    → IsAccess net p vlan
    → broadcast_domain net device_id interface none ≡ ok ports
    → (elem q ports ≡ true) ↔ (
        Arrives net vlan (p ∷ []) ((device_id, interface) ∷ []) q
        × (elem q ((device_id, interface) ∷ []) ≡ false)
        × ((device : SimDevice) × LetsIn net vlan q device))
unfolding broadcast_domain
broadcast_domain-exact net device_id interface p vlan ports q wired a h =
    let origin : List Port = (device_id, interface) ∷ [] in
    let sent : flood net (p ∷ []) none origin ≡ ok ports = rw wired at h in
    flood_exact net (p ∷ []) vlan origin ports q (rw (flood-untagged net p vlan origin a) at sent)
