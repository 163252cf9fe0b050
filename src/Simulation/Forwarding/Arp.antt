-- ===== src/Simulation/Forwarding/Arp.antt =====
-- ARP: `resolve_arp` and the explanation of its failure.
use networkbasicswebsite.Prelude.{
  String, Bool, true, false, not, List, [], ◌∷◌, Option, none, some, if◌then◌else◌, ◌==◌, string_eq,
  option_eq, pair_eq, Dict, lookup, insert, Result, ok, raise, required,
}
use networkbasicswebsite.Prelude
use networkbasicswebsite.Text.{concat, present}
use networkbasicswebsite.Devices.{CableKind}
use networkbasicswebsite.Simulation.Trace.{EventKind, FrameSummary, no_extra}
use networkbasicswebsite.Simulation.Network.{
  Port, SimInterface, SimDevice, interface_holding, SimLink, Network, link_on, device_owning,
  broadcast_domain, blocked_links_near,
}
use networkbasicswebsite.Simulation.Forwarding.Run.{
  M, pure, lift, ◌>>=◌, ◌>>◌, trace_add, trace_fail, get_arp, set_arp,
}

-- `link.cable.value.replace('_', ' ')`
abbrev pub cable_words : CableKind → String
cable_words CableKind.straight_through = "straight through"
cable_words CableKind.crossover = "crossover"
cable_words CableKind.fiber = "fiber"
cable_words CableKind.console = "console"
cable_words CableKind.serial = "serial"
cable_words CableKind.wireless = "wireless"

-- `_link_id`
abbrev pub link_id_of : Option SimLink → Option String
link_id_of none = none
link_id_of (some link) = some link.id

unfoldable pub link_id : Network → String → String → Option String
link_id net device_id interface = link_id_of (link_on net device_id interface)

-- The first blocked link, as the source's loop returns in its first round.
unfoldable pub blocked_detail : Network → SimDevice → String → List SimLink → Result String
blocked_detail net holder target_ip [] = ok (
    concat (
      holder.name ∷ " holds " ∷ target_ip ∷ " but is not reachable in this "
      ∷ "broadcast domain — check that both ports are in the same VLAN." ∷ []))
blocked_detail net holder target_ip (link ∷ _) =
    Prelude.◌>>=◌ (required (lookup link.a_device net.devices)) λ a.
      Prelude.◌>>=◌ (required (lookup link.b_device net.devices)) λ b.
        if not link.enabled
        then ok (
            concat (
              "The link between " ∷ a.name ∷ " and " ∷ b.name ∷ " is disabled, so the segment is "
              ∷ "cut before it reaches " ∷ holder.name ∷ "." ∷ []))
        else ok (
            concat (
              "The link between "
              ∷ a.name
              ∷ " and "
              ∷ b.name
              ∷ " uses a "
              ∷ cable_words link.cable
              ∷ " cable, which is the wrong "
              ∷ "type — no signal passes, so "
              ∷ holder.name
              ∷ " is unreachable."
              ∷ []))

-- The name of the holder's port, if that port is down.
abbrev pub down_port : Option SimInterface → Option String
down_port none = none
down_port (some port) = if port.enabled then none else some port.name

abbrev pub down_words : SimDevice → String → String → String
down_words holder target_ip name = concat (
    holder.name ∷ " has " ∷ target_ip ∷ " on " ∷ name ∷ ", "
    ∷ "but that interface is administratively down." ∷ [])

-- The part of `_arp_failure_detail` behind the tests of the cable.
unfoldable pub holder_detail :
    Network → SimDevice → SimInterface → String → Option SimDevice → Result String
holder_detail net device egress target_ip none =
    ok (concat ("No device in this network is configured with " ∷ target_ip ∷ "." ∷ []))
holder_detail net device egress target_ip (some holder) =
    elim (down_port (interface_holding holder target_ip)) [
      | some name ↦ ok (down_words holder target_ip name)
      | none ↦
          Prelude.◌>>=◌ (blocked_links_near net device.id egress.name)
            λ blocked. blocked_detail net holder target_ip blocked
    ]

-- `_arp_failure_detail`
unfoldable pub arp_failure_detail : Network → SimDevice → SimInterface → String → Result String
arp_failure_detail net device egress target_ip = elim (link_on net device.id egress.name) [
  | none ↦ ok (concat (egress.name ∷ " has no cable attached." ∷ []))
  | some link ↦
      if not link.enabled
      then ok (concat ("The cable on " ∷ egress.name ∷ " is disabled." ∷ []))
      else if not link.cable_ok
      then ok (
          concat (
            "The cable on "
            ∷ egress.name
            ∷ " is the wrong type "
            ∷ "("
            ∷ cable_words link.cable
            ∷ "), so no signal passes."
            ∷ []))
      else holder_detail net device egress target_ip (device_owning net target_ip)
]

-- A live port that holds the address, on a device of the network.
abbrev pub answering : Option SimInterface → String → Option SimInterface
answering none target_ip = none
answering (some port) target_ip =
    if not port.enabled then none else if port.ip == some target_ip then some port else none

abbrev pub answer_on : Option SimDevice → String → String → Option (SimDevice × SimInterface)
answer_on none interface target_ip = none
answer_on (some peer) interface target_ip =
    elim (answering (lookup interface peer.interfaces) target_ip) [
      | none ↦ none
      | some port ↦ some (peer, port)
    ]

-- The loop over the broadcast domain: the first port that answers.
unfoldable pub first_answer : Network → String → List Port → Option (SimDevice × SimInterface)
first_answer net target_ip [] = none
first_answer net target_ip ((device_id, interface) ∷ rest) =
    let later = first_answer net target_ip rest in
    elim (answer_on (lookup device_id net.devices) interface target_ip) [
      | some found ↦ some found
      | none ↦ later
    ]

-- `egress.ip or 'unassigned'`
abbrev or_unassigned : Option String → String
or_unassigned ip = elim (present ip) [ some address ↦ address | none ↦ "unassigned" ]

-- A host has no VLAN; the switch port that it reaches decides.
abbrev pub egress_vlan : SimInterface → Option Prelude.ℕ
egress_vlan egress = elim egress.switchport_mode [ none ↦ none | some _ ↦ some egress.access_vlan ]

abbrev arp_frame : String → String → Option String → Option String → Option Prelude.ℕ → FrameSummary
arp_frame source_mac destination_mac source_ip destination_ip vlan = record {
  source_mac = some source_mac;
  destination_mac = some destination_mac;
  source_ip = source_ip;
  destination_ip = destination_ip;
  protocol = some "ARP";
  ttl = none;
  vlan = vlan;
}

unfoldable pub trace_request : Network → SimDevice → SimInterface → String → M (Unit {0})
trace_request net device egress target_ip =
    trace_add EventKind.arp_request device.id device.name
      (concat ("ARP: who has " ∷ target_ip ∷ "?" ∷ []))
      (record no_extra {
        interface = some egress.name;
        link_id = link_id net device.id egress.name;
        detail =
            some (concat ("Broadcast from " ∷ or_unassigned egress.ip ∷ " on " ∷ egress.name ∷ []));
        frame = some (
            arp_frame egress.mac "FF:FF:FF:FF:FF:FF" egress.ip (some target_ip)
              (egress_vlan egress));
      })

unfoldable pub trace_reply :
    Network → SimDevice → SimInterface → String → SimDevice → SimInterface → M (Unit {0})
trace_reply net device egress target_ip peer port =
    trace_add EventKind.arp_reply peer.id peer.name
      (concat ("ARP reply: " ∷ target_ip ∷ " is at " ∷ port.mac ∷ []))
      (record no_extra {
        interface = some port.name;
        link_id = link_id net peer.id port.name;
        to_device_id = some device.id;
        frame = some (arp_frame port.mac egress.mac (some target_ip) egress.ip none);
      })

-- What follows the flood of the request.
unfoldable pub settle_arp :
    Network
    → SimDevice
    → SimInterface
    → String
    → Option (SimDevice × SimInterface)
    → M (Option String)
settle_arp net device egress target_ip (some (peer, port)) = do
  cache ← get_arp
  set_arp (insert (device.id, target_ip) port.mac cache)
  trace_reply net device egress target_ip peer port
  pure (some port.mac)
settle_arp net device egress target_ip none = do
  detail ← lift (arp_failure_detail net device egress target_ip)
  trace_fail EventKind.timeout device.id device.name
      (concat ("ARP timed out for " ∷ target_ip ∷ [])) (some detail) (some egress.name)
  pure none

unfoldable pub ask_arp : Network → SimDevice → SimInterface → String → M (Option String)
ask_arp net device egress target_ip = do
  trace_request net device egress target_ip
  domain ← lift (broadcast_domain net device.id egress.name (egress_vlan egress))
  settle_arp net device egress target_ip (first_answer net target_ip domain)

unfoldable pub trace_cached : SimDevice → SimInterface → String → String → M (Unit {0})
trace_cached device egress target_ip cached =
    trace_add EventKind.arp_cached device.id device.name
      (concat (target_ip ∷ " is already in the ARP cache" ∷ []))
      (record no_extra {
        interface = some egress.name;
        detail = some (concat (target_ip ∷ " is at " ∷ cached ∷ []));
      })

-- `resolve_arp`
unfoldable pub resolve_arp : Network → SimDevice → SimInterface → String → M (Option String)
resolve_arp net device egress target_ip = do
  cache ← get_arp
  elim (present (lookup (device.id, target_ip) cache)) [
    | some cached ↦ (do trace_cached device egress target_ip cached; pure (some cached))
    | none ↦ ask_arp net device egress target_ip
  ]
