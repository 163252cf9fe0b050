-- ===== src/Simulation/Network/Flood.antt =====
-- Layer 2: `_flood`, `broadcast_domain` and `flood_into`. Fuel bounds the rounds of the `while`
-- loop: `flood_fuel` is enough, so `diverged` is never raised (module FloodEnds).
use networkbasicswebsite.Prelude.{
  ℕ, zero, suc, ◌+◌, ◌*◌, String, Bool, false, not, ◌&&◌, ◌||◌, List, [], ◌∷◌, ◌++◌, map, Option,
  none, some, if◌then◌else◌, ◌==◌, nat_eq, string_eq, pair_eq, elem, length, Dict, lookup, Result,
  ok, raise, diverged,
}
use networkbasicswebsite.Text.{is_some}
use networkbasicswebsite.Config.{SwitchportMode, access, trunk}
use networkbasicswebsite.Simulation.Network.Types.{
  Port, SimInterface, carries_vlan, SimDevice, switches_frames, SimLink, Network,
}
use networkbasicswebsite.Simulation.Network.Queries.{peer_of}

-- A queued port, with the VLAN of the frame by the time it lands.
abbrev pub Arrival : Type 0
Arrival = Port × Option ℕ

-- The VLAN tests on a switch's port that a frame lands on: its VLAN behind the port, or `none` for
-- a drop.
abbrev pub pass_ingress : Option SwitchportMode → SimInterface → Option ℕ → Option (Option ℕ)
pass_ingress (some access) port none = some (some port.access_vlan)
pass_ingress (some access) port (some vlan) =
    if port.access_vlan == vlan then some (some vlan) else none
pass_ingress (some trunk) port (some vlan) =
    if carries_vlan port vlan then some (some vlan) else none
pass_ingress _ port vlan = some vlan

unfoldable pub ingress : SimDevice → SimInterface → Option ℕ → Option (Option ℕ)
ingress device port vlan =
    if switches_frames device then pass_ingress port.switchport_mode port vlan else some vlan

-- Device and port exist and the port is up.
abbrev pub live_port : SimDevice → String → Option SimInterface
live_port device interface = elim (lookup interface device.interfaces) [
  | none ↦ none
  | some port ↦ if port.enabled then some port else none
]

abbrev pub admit_on : Option SimDevice → String → Option ℕ → Option (SimDevice × Option ℕ)
admit_on none interface vlan = none
admit_on (some device) interface vlan = elim (live_port device interface) [
  | none ↦ none
  | some port ↦ elim (ingress device port vlan) [ none ↦ none | some vlan' ↦ some (device, vlan') ]
]

-- Everything between the test of `seen` and `reached.append`: the device and the frame's VLAN, or
-- `none` where the source says `continue`.
unfoldable pub admit : Network → Port → Option ℕ → Option (SimDevice × Option ℕ)
admit net (device_id, interface) vlan = admit_on (lookup device_id net.devices) interface vlan

-- `current_vlan is not None and other.switchport_mode and not other.carries_vlan(current_vlan)`
abbrev pub blocks : SimInterface → Option ℕ → Bool
blocks port none = false
blocks port (some vlan) = is_some port.switchport_mode && not (carries_vlan port vlan)

-- The ports that a frame leaves towards: the peers of the other live ports that carry its VLAN.
unfoldable pub exits_over :
    Network → String → String → Option ℕ → Dict String SimInterface → List Port
exits_over net device_id ingress_name vlan [] = []
exits_over net device_id ingress_name vlan ((name, other) ∷ rest) =
    let more = exits_over net device_id ingress_name vlan rest in
    if name == ingress_name || not other.enabled || blocks other vlan
    then more
    else elim (peer_of net device_id name) [ none ↦ more | some p ↦ p ∷ more ]

unfoldable pub exits : Network → SimDevice → String → String → Option ℕ → List Port
exits net device device_id ingress_name vlan =
    exits_over net device_id ingress_name vlan device.interfaces

pub record FloodState : Type 0 where
  pub seen : List Port
  pub queue : List Arrival
  pub reached : List Port

-- `queue.append` for each peer that is not in `seen`
unfoldable pub enqueue : List Port → Option ℕ → List Port → List Arrival
enqueue seen vlan [] = []
enqueue seen vlan (p ∷ ps) =
    if elem p seen then enqueue seen vlan ps else (p, vlan) ∷ enqueue seen vlan ps

-- What a switch sends on. Hosts and routers consume the frame.
abbrev pub forwarded : Network → SimDevice → Port → Option ℕ → List Port → List Arrival
forwarded net device (device_id, interface) vlan seen =
    if switches_frames device
    then enqueue seen vlan (exits net device device_id interface vlan)
    else []

-- One round, after `p` with its VLAN left the head of the queue.
unfoldable pub flood_step : Network → Port → Option ℕ → List Arrival → FloodState → FloodState
flood_step net p vlan rest s =
    if elem p s.seen then record s { queue = rest } else elim (admit net p vlan) [
      | none ↦ record { seen = p ∷ s.seen; queue = rest; reached = s.reached }
      | some (device, vlan') ↦ record {
        seen = p ∷ s.seen;
        queue = rest ++ forwarded net device p vlan' (p ∷ s.seen);
        reached = s.reached ++ p ∷ [];
      }
    ]

unfoldable pub flood_loop : ℕ → Network → FloodState → Result (List Port)
flood_loop zero net s = elim s.queue [ [] ↦ ok s.reached | _ ∷ _ ↦ raise diverged ]
flood_loop (suc fuel) net s = elim s.queue [
  | [] ↦ ok s.reached
  | (p, vlan) ∷ rest ↦ flood_loop fuel net (flood_step net p vlan rest s)
]

-- The number of ports in the network.
unfoldable pub port_count : Dict String SimDevice → ℕ
port_count [] = 0
port_count ((id, device) ∷ rest) = length device.interfaces + port_count rest

-- Both ends of every cable.
unfoldable pub cable_ends : Dict String SimLink → List Port
cable_ends [] = []
cable_ends ((id, link) ∷ rest) =
    (link.a_device, link.a_interface) ∷ (link.b_device, link.b_interface) ∷ cable_ends rest

-- Each round takes an entry off the queue, and only the first visit of a port adds entries, at most
-- one for each port of its device.
unfoldable pub flood_fuel : Network → List Port → ℕ
flood_fuel net seeds =
    length seeds + (length seeds + length (cable_ends net.links)) * port_count net.devices

unfoldable pub flood : Network → List Port → Option ℕ → List Port → Result (List Port)
flood net seeds vlan visited =
    flood_loop (flood_fuel net seeds) net
      (record { seen = visited; queue = map (λ p. (p, vlan)) seeds; reached = [] })

abbrev pub start_of : Option Port → List Port
start_of none = []
start_of (some p) = p ∷ []

-- Every port that a broadcast sent out of this port would reach.
unfoldable pub broadcast_domain : Network → String → String → Option ℕ → Result (List Port)
broadcast_domain net device_id interface vlan =
    flood net (start_of (peer_of net device_id interface)) vlan ((device_id, interface) ∷ [])

-- The VLAN of a frame comes from the access port that it arrived on.
abbrev pub arrival_vlan : Option SimInterface → Option ℕ → Option ℕ
arrival_vlan (some port) none = elim port.switchport_mode [
  | some access ↦ some port.access_vlan
  | _ ↦ none
]
arrival_vlan _ vlan = vlan

-- Every port that a frame arriving on this port would be flooded to.
unfoldable pub flood_into : Network → String → String → Option ℕ → Result (List Port)
flood_into net device_id ingress_name vlan = elim (lookup device_id net.devices) [
  | none ↦ ok []
  | some device ↦
      let vlan' = arrival_vlan (lookup ingress_name device.interfaces) vlan in
      flood net (exits net device device_id ingress_name vlan') vlan'
        ((device_id, ingress_name) ∷ [])
]
