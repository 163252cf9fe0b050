-- ===== src/Simulation/Protocols/HostVlan.antt =====
-- `_find_dhcp_pool` for a host behind an access port: the Discover is flooded as a frame of VLAN 1.
use networkbasicswebsite.Prelude.{
  ℕ, zero, suc, ◌≡◌, ◌≢◌, refl, ap, ◌∙◌, inl, inr, String, false, List, [], ◌∷◌, none, some, arith,
  ◌==◌, nat_eq, string_eq, pair_eq, elem, length, ◌+◌, ◌*◌, lookup, ok, Bool-cases, values,
}
use networkbasicswebsite.Simulation.Trace.{SimulationResult}
use networkbasicswebsite.Simulation.Network.{
  Port, SimInterface, SimDevice, Network, peer_of, admit, ingress, FloodState, flood_step,
  flood_loop, cable_ends, port_count, flood_fuel, flood, broadcast_domain,
}
use networkbasicswebsite.Simulation.Network.Untagged.{IsAccess}
use networkbasicswebsite.Simulation.Forwarding.{trace_add, get_events, ◌>>=◌}
use networkbasicswebsite.Simulation.Forwarding.Promises.{start}
use networkbasicswebsite.Simulation.Protocols.Report.{report}
use networkbasicswebsite.Simulation.Protocols.Dhcp.{
  device_ids, first_server, find_dhcp_pool, first_enabled, client_vlan, dhcp, dhcp_over, dhcp_lease,
  trace_discover,
}

-- The access port of another VLAN drops a tagged frame.
admit-dropped :
    (net : Network) (p : Port) (vlan tag : ℕ)
    → IsAccess net p vlan
    → vlan ≢ tag
    → admit net p (some tag) ≡ none
unfolding admit ingress
admit-dropped net p vlan tag a other = elim (Bool-cases (a.port.access_vlan == tag)) [
  | inl e ↦ absurd (other (ground (arith, e, a.member)))
  | inr e ↦ elim (Bool-cases a.port.enabled) [
    | inl up ↦ ground (arith, a.known, a.present, a.switch, a.mode, e, up)
    | inr down ↦ ground (arith, a.known, a.present, down)
  ]
]

abbrev arrives : Port → List Port → ℕ → FloodState
arrives p visited tag = record { seen = visited; queue = (p, some tag) ∷ []; reached = [] }

flood_step-dropped :
    (net : Network) (p : Port) (vlan tag : ℕ) (visited : List Port)
    → IsAccess net p vlan
    → vlan ≢ tag
    → (seen : List Port) × (flood_step net p (some tag) [] (arrives p visited tag)
        ≡ record { seen = seen; queue = []; reached = [] })
unfolding flood_step
flood_step-dropped net p vlan tag visited a other = elim (Bool-cases (elem p visited)) [
  | inl e ↦ (visited, rw e refl)
  | inr e ↦ (p ∷ visited, rw (e, admit-dropped net p vlan tag a other) refl)
]

flood_loop-empty :
    (fuel : ℕ) (net : Network) (seen : List Port)
    → flood_loop fuel net (record { seen = seen; queue = []; reached = [] }) ≡ ok []
unfolding flood_loop
flood_loop-empty zero net seen = refl
flood_loop-empty (suc fuel) net seen = refl

flood_loop-dropped :
    (fuel : ℕ) (net : Network) (p : Port) (vlan tag : ℕ) (visited : List Port)
    → IsAccess net p vlan
    → vlan ≢ tag
    → flood_loop (suc fuel) net (arrives p visited tag) ≡ ok []
unfolding flood_loop
flood_loop-dropped fuel net p vlan tag visited a other =
    let (seen, dropped) = flood_step-dropped net p vlan tag visited a other in
    ap (flood_loop fuel net) dropped ∙ flood_loop-empty fuel net seen

broadcast_domain-dropped :
    (net : Network) (device_id interface : String) (p : Port) (vlan tag : ℕ)
    → peer_of net device_id interface ≡ some p
    → IsAccess net p vlan
    → vlan ≢ tag
    → broadcast_domain net device_id interface (some tag) ≡ ok []
unfolding broadcast_domain flood flood_fuel
broadcast_domain-dropped net device_id interface p vlan tag wired a other =
    let more : ℕ = (1 + length (cable_ends net.links)) * port_count net.devices in
    let some_fuel : 1 + more ≡ suc more = omega arith in
    rw (wired, some_fuel)
      (flood_loop-dropped more net p vlan tag ((device_id, interface) ∷ []) a other)

module _ (order : List String → List String) (net : Network) where
  find_dhcp_pool-unserved :
      (client : SimDevice) (interface : SimInterface) (p : Port) (vlan : ℕ)
      → order [] ≡ []
      → interface.switchport_mode ≡ none
      → peer_of net client.id interface.name ≡ some p
      → IsAccess net p vlan
      → vlan ≢ 1
      → find_dhcp_pool order net client interface ≡ ok none
  unfolding find_dhcp_pool first_server device_ids
  find_dhcp_pool-unserved client interface p vlan keeps host wired a other =
      let untagged : client_vlan interface ≡ 1 = rw host refl in
      rw
        (
          untagged,
          broadcast_domain-dropped net client.id interface.name p vlan 1 wired a other,
          keeps,
        )
        refl

  -- A host whose first port that is up leads to an access port of a VLAN other than 1 gets no lease,
  -- whatever pools the devices of its VLAN serve.
  pub dhcp-unserved :
      (source_id : String) (client : SimDevice) (interface : SimInterface) (p : Port) (vlan : ℕ)
      → order [] ≡ []
      → lookup source_id net.devices ≡ some client
      → first_enabled (values client.interfaces) ≡ some interface
      → interface.switchport_mode ≡ none
      → peer_of net client.id interface.name ≡ some p
      → IsAccess net p vlan
      → vlan ≢ 1
      → (result : SimulationResult) × ((dhcp order net source_id start).0 ≡ ok result)
        × (result.success ≡ false)
  unfolding dhcp dhcp_over dhcp_lease trace_discover trace_add report get_events ◌>>=◌
  dhcp-unserved source_id client interface p vlan keeps known up host wired a other =
      let unserved = find_dhcp_pool-unserved client interface p vlan keeps host wired a other in
      rw (known, up, dhcp, dhcp_over, unserved) (_, refl, refl)
