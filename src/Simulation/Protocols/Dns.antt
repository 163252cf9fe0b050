-- ===== src/Simulation/Protocols/Dns.antt =====
-- `dns`: a device answers for its own name.
use networkbasicswebsite.Prelude.{
  String, not, List, [], ◌∷◌, Option, none, some, if◌then◌else◌, string_eq, lookup, values,
  required,
}
use networkbasicswebsite.Text.{concat, before_dot}
use networkbasicswebsite.Simulation.Trace.{EventKind, no_extra, SimulationResult}
use networkbasicswebsite.Simulation.Network.{SimDevice, Network, device_by_name}
use networkbasicswebsite.Simulation.Forwarding.{
  M, lift, ◌>>=◌, ◌>>◌, trace_add, trace_fail, DeliveryOutcome, deliver,
}
use networkbasicswebsite.Simulation.Protocols.Report.{succeeded, failed, unknown_source}
use networkbasicswebsite.Simulation.Protocols.Resolve.{first_address}
use networkbasicswebsite.Simulation.Protocols.Icmp.{final_or}

unfoldable pub trace_query : SimDevice → String → String → M (Unit {0})
trace_query client hostname resolver =
    trace_add EventKind.dns_query client.id client.name
      (concat ("DNS query: " ∷ hostname ∷ " to " ∷ resolver ∷ []))
      (record no_extra { detail = some "A UDP query on port 53." })

unfoldable pub trace_nxdomain : SimDevice → String → M (Unit {0})
trace_nxdomain device hostname =
    trace_fail EventKind.drop device.id device.name
      (concat ("NXDOMAIN — no record for " ∷ hostname ∷ []))
      (some "The resolver has no record for that name.") none

unfoldable pub trace_response : SimDevice → String → String → M (Unit {0})
trace_response answer hostname address =
    trace_add EventKind.dns_response answer.id answer.name
      (concat ("DNS response: " ∷ hostname ∷ " is " ∷ address ∷ [])) no_extra

-- What the device of that name answers.
unfoldable pub dns_address : SimDevice → String → Option String → M SimulationResult
dns_address answer hostname none =
    failed "DNS" (concat (hostname ∷ " has no address" ∷ []))
      (some (concat (answer.name ∷ " exists but has no usable IP address." ∷ []))) none
dns_address answer hostname (some address) = do
  trace_response answer hostname address
  succeeded "DNS" (concat (hostname ∷ " resolves to " ∷ address ∷ []))

unfoldable pub dns_answer :
    Network → String → String → DeliveryOutcome → Option SimDevice → M SimulationResult
dns_answer net hostname resolver outcome none = do
  device ← lift (required (lookup (final_or outcome.final_device resolver) net.devices))
  trace_nxdomain device hostname
  failed "DNS" (concat (hostname ∷ " does not resolve" ∷ []))
      (some (concat ("The resolver has no record for " ∷ hostname ∷ "." ∷ [])))
      (some "Names resolve to devices in this topology — try a device name.")
dns_answer net hostname resolver outcome (some answer) =
    dns_address answer hostname (first_address (values answer.interfaces))

unfoldable pub dns_reply :
    (String → String) → Network → String → String → DeliveryOutcome → M SimulationResult
dns_reply lower net hostname resolver outcome =
    if not outcome.delivered
    then failed "DNS" (concat ("Cannot reach the DNS server " ∷ resolver ∷ [])) outcome.reason (
        some (
          concat (
            "Names cannot resolve if the resolver is unreachable — try "
            ∷ "pinging its address first." ∷ [])))
    else dns_answer net hostname resolver outcome (device_by_name lower net (before_dot hostname))

unfoldable pub dns_from :
    (String → String) → Network → SimDevice → String → List String → M SimulationResult
dns_from lower net client hostname [] =
    failed "DNS" (concat ("Cannot resolve " ∷ hostname ∷ []))
      (some (concat (client.name ∷ " has no DNS server configured." ∷ [])))
      (some "Set a DNS server on the device, or hand one out over DHCP.")
dns_from lower net client hostname (resolver ∷ rest) = do
  trace_query client hostname resolver
  outcome ← deliver net client resolver "DNS query" ""
  dns_reply lower net hostname resolver outcome

-- `dns`
unfoldable pub dns : (String → String) → Network → String → String → M SimulationResult
dns lower net source_id hostname = elim (lookup source_id net.devices) [
  | none ↦ unknown_source "DNS"
  | some client ↦ dns_from lower net client hostname client.config.dns_servers
]
