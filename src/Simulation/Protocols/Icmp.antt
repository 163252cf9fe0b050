-- ===== src/Simulation/Protocols/Icmp.antt =====
-- `ping`, `traceroute` and `arp`.
use networkbasicswebsite.Prelude.{
  ℕ, String, not, [], ◌∷◌, Option, none, some, if◌then◌else◌, ◌==◌, nat_eq, string_eq, lookup,
  required,
}
use networkbasicswebsite.Text.{concat, present, str, strip, or_empty, shown}
use networkbasicswebsite.Simulation.Trace.{EventKind, no_extra, no_frame, SimulationResult}
use networkbasicswebsite.Simulation.Network.{SimInterface, SimDevice, Network}
use networkbasicswebsite.Simulation.Forwarding.{
  M, lift, ◌>>=◌, ◌>>◌, trace_add, resolve_arp, choose_egress, DeliveryOutcome, deliver,
}
use networkbasicswebsite.Simulation.Protocols.Report.{succeeded, failed, unknown_source}
use networkbasicswebsite.Simulation.Protocols.Resolve.{Target, resolve_destination, address_facing}

abbrev pub nothing_answers : String → Option String
nothing_answers destination =
    some (concat ("Nothing in this topology answers to " ∷ destination ∷ "." ∷ []))

-- `outcome.final_device or resolved.device.id`
abbrev pub final_or : Option String → String → String
final_or final_device id = elim (present final_device) [ some final ↦ final | none ↦ id ]

abbrev pub hops_word : ℕ → String
hops_word hops = if hops == 1 then "" else "s"

-- What follows the way back.
unfoldable pub ping_report :
    ℕ → Target → DeliveryOutcome → SimDevice → Option String → DeliveryOutcome → M SimulationResult
ping_report count target outcome target_device source_address back =
    if not back.delivered
    then failed "ICMP" "Request reached the destination, but the reply could not get back"
        (some (
          strip (
            concat (
              target_device.name
              ∷ " received the ping but cannot route the "
              ∷ "reply to "
              ∷ shown source_address
              ∷ ". "
              ∷ or_empty back.reason
              ∷ []))))
        (some (
          concat (
            "A path must work in both directions. Check the return route or "
            ∷ "default gateway on " ∷ target_device.name ∷ "." ∷ [])))
    else succeeded "ICMP" (
        concat (
          "Reply from "
          ∷ target.address
          ∷ ": "
          ∷ str count
          ∷ "/"
          ∷ str count
          ∷ " received, "
          ∷ str outcome.hops
          ∷ " hop"
          ∷ hops_word outcome.hops
          ∷ []))

unfoldable pub trace_echo : Target → SimDevice → Option String → M (Unit {0})
trace_echo target target_device source_address =
    trace_add EventKind.reply target_device.id target_device.name
      (concat ("Echo reply to " ∷ shown source_address ∷ []))
      (record no_extra {
        frame = some (record no_frame {
          source_ip = some target.address;
          destination_ip = source_address;
          protocol = some "ICMP echo reply";
        });
      })

-- The reply, once the request has its outcome.
unfoldable pub ping_reply : Network → SimDevice → ℕ → Target → DeliveryOutcome → M SimulationResult
ping_reply net source count target outcome =
    if not outcome.delivered
    then failed "ICMP" (concat ("Ping to " ∷ target.address ∷ " failed — request timed out" ∷ []))
        outcome.reason outcome.hint
    else do
      target_device ←
          lift (required (lookup (final_or outcome.final_device target.device.id) net.devices))
      source_address ← lift (address_facing source target.address)
      trace_echo target target_device source_address
      back ← deliver net target_device (or_empty source_address) "ICMP echo reply" ""
      ping_report count target outcome target_device source_address back

unfoldable pub trace_ping : SimDevice → Target → ℕ → M (Unit {0})
trace_ping source target count =
    trace_add EventKind.note source.id source.name
      (concat ("Pinging " ∷ target.address ∷ " with " ∷ str count ∷ " echo requests" ∷ [])) no_extra

unfoldable pub ping_target : Network → SimDevice → String → ℕ → Option Target → M SimulationResult
ping_target net source destination count none =
    failed "ICMP" (concat ("Ping to " ∷ destination ∷ " failed" ∷ [])) (nothing_answers destination)
      (some "Check the address, or configure it on the device you meant.")
ping_target net source destination count (some target) = do
  trace_ping source target count
  outcome ← deliver net source target.address "ICMP echo request" ""
  ping_reply net source count target outcome

-- `ping`
unfoldable pub ping : (String → String) → Network → String → String → ℕ → M SimulationResult
ping lower net source_id destination count = elim (lookup source_id net.devices) [
  | none ↦ unknown_source "ICMP"
  | some source ↦
      ping_target net source destination count (resolve_destination lower net destination)
]

unfoldable pub trace_report : Target → DeliveryOutcome → M SimulationResult
trace_report target outcome =
    if not outcome.delivered
    then failed "traceroute" (concat ("Trace to " ∷ target.address ∷ " did not complete" ∷ []))
        outcome.reason outcome.hint
    else succeeded "traceroute" (
        concat (
          "Reached "
          ∷ target.address
          ∷ " in "
          ∷ str outcome.hops
          ∷ " hop"
          ∷ hops_word outcome.hops
          ∷ []))

unfoldable pub trace_tracing : SimDevice → Target → M (Unit {0})
trace_tracing source target =
    trace_add EventKind.note source.id source.name
      (concat ("Tracing the route to " ∷ target.address ∷ []))
      (record no_extra {
        detail = some "Each hop is found by sending a packet whose TTL expires there.";
      })

unfoldable pub traceroute_target : Network → SimDevice → String → Option Target → M SimulationResult
traceroute_target net source destination none =
    failed "traceroute" (concat ("Cannot trace a route to " ∷ destination ∷ []))
      (nothing_answers destination) none
traceroute_target net source destination (some target) = do
  trace_tracing source target
  outcome ← deliver net source target.address "traceroute probe" ""
  trace_report target outcome

-- `traceroute`
unfoldable pub traceroute : (String → String) → Network → String → String → M SimulationResult
traceroute lower net source_id destination = elim (lookup source_id net.devices) [
  | none ↦ unknown_source "ICMP"
  | some source ↦
      traceroute_target net source destination (resolve_destination lower net destination)
]

unfoldable pub arp_report : String → Option String → M SimulationResult
arp_report next_hop none =
    failed "ARP" (concat ("No reply for " ∷ next_hop ∷ []))
      (some (concat ("Nothing on the segment answered for " ∷ next_hop ∷ "." ∷ [])))
      (some "Check cabling, VLANs, and that the target interface is up.")
arp_report next_hop (some mac) = succeeded "ARP" (concat (next_hop ∷ " is at " ∷ mac ∷ []))

unfoldable pub arp_over :
    Network → SimDevice → String → Option (SimInterface × String) → M SimulationResult
arp_over net source destination none =
    failed "ARP" (concat ("Cannot ARP for " ∷ destination ∷ []))
      (some (concat (source.name ∷ " has no interface facing " ∷ destination ∷ "." ∷ []))) none
arp_over net source destination (some (egress, next_hop)) = do
  mac ← resolve_arp net source egress next_hop
  arp_report next_hop mac

-- `arp`
unfoldable pub arp : Network → String → String → M SimulationResult
arp net source_id destination = elim (lookup source_id net.devices) [
  | none ↦ unknown_source "ARP"
  | some source ↦ choose_egress net source destination >>= arp_over net source destination
]
