-- ===== src/Simulation/Network/Blocked.antt =====
-- `blocked_links_near`: the unusable links on the segment behind a device.
use networkbasicswebsite.Prelude.{
  ℕ, zero, suc, String, Bool, true, false, not, ◌&&◌, ◌||◌, List, [], ◌∷◌, ◌++◌, Option, none, some,
  if◌then◌else◌, ◌==◌, string_eq, elem, lookup, keys, Result, ok, raise, diverged, required, ◌>>=◌,
}
use networkbasicswebsite.Devices.{cable_eq}
use networkbasicswebsite.Simulation.Network.Types.{
  Port, switches_frames, SimLink, peer, usable, Network,
}
use networkbasicswebsite.Simulation.Network.Queries.{link_on}
use networkbasicswebsite.Simulation.Network.Flood.{port_count}

abbrev same_flag : Bool → Bool → Bool
same_flag true b = b
same_flag false b = not b

-- The equality of the dataclass: field by field.
unfoldable pub same_link : SimLink → SimLink → Bool
same_link a b =
    a.id == b.id
    && a.a_device == b.a_device
    && a.a_interface == b.a_interface
    && a.b_device == b.b_device
    && a.b_interface == b.b_interface
    && a.cable == b.cable
    && same_flag a.enabled b.enabled
    && same_flag a.cable_ok b.cable_ok

unfoldable pub has_link : SimLink → List SimLink → Bool
has_link link [] = false
has_link link (other ∷ rest) = same_link link other || has_link link rest

pub record BlockedState : Type 0 where
  pub seen : List String
  pub queue : List String
  pub blocked : List SimLink

-- The far end of a usable link: a switch that was not seen is queued.
unfoldable pub follow : Network → Option Port → BlockedState → Result BlockedState
follow net none s = ok s
follow net (some p) s = if elem p.0 s.seen then ok s else do
  device ← required (lookup p.0 net.devices)
  ok (if switches_frames device then record s { queue = s.queue ++ p.0 ∷ [] } else s)

-- The body of the loop over the port names of `current`.
unfoldable pub inspect : Network → String → String → BlockedState → Result BlockedState
inspect net current name s = elim (link_on net current name) [
  | none ↦ ok s
  | some link ↦
      if not (usable link)
      then ok (if has_link link s.blocked then s else record s { blocked = s.blocked ++ link ∷ [] })
      else follow net (peer link current name) s
]

unfoldable pub inspect_all : Network → String → List String → BlockedState → Result BlockedState
inspect_all net current [] s = ok s
inspect_all net current (name ∷ rest) s = do
  s' ← inspect net current name s
  inspect_all net current rest s'

-- One round, after `current` left the head of the queue.
unfoldable pub blocked_step : Network → String → List String → BlockedState → Result BlockedState
blocked_step net current rest s =
    if elem current s.seen
    then ok (record s { queue = rest })
    else let s' : BlockedState = record {
      seen = current ∷ s.seen;
      queue = rest;
      blocked = s.blocked;
    } in
      elim (lookup current net.devices) [
        | none ↦ ok s'
        | some device ↦ inspect_all net current (keys device.interfaces) s'
      ]

unfoldable pub blocked_loop : ℕ → Network → BlockedState → Result (List SimLink)
blocked_loop zero net s = elim s.queue [ [] ↦ ok s.blocked | _ ∷ _ ↦ raise diverged ]
blocked_loop (suc fuel) net s = elim s.queue [
  | [] ↦ ok s.blocked
  | current ∷ rest ↦ blocked_step net current rest s >>= λ s'. blocked_loop fuel net s'
]

-- The start is taken once, and a device adds at most an entry for each of its ports.
unfoldable pub blocked_links_near : Network → String → String → Result (List SimLink)
blocked_links_near net device_id interface =
    blocked_loop (suc (port_count net.devices)) net
      (record { seen = []; queue = device_id ∷ []; blocked = [] })
