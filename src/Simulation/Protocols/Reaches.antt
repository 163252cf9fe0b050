-- ===== src/Simulation/Protocols/Reaches.antt =====
-- What a successful `ping` or `traceroute` means.
use networkbasicswebsite.Prelude.{
  ℕ, refl, [], ◌∷◌, ◌≡◌, inl, inr, String, true, Option, none, some, string_eq, lookup, values,
  Option-cases, ok, Ends, Ends-bind,
}
use networkbasicswebsite.Text.{or_empty, concat, str}
use networkbasicswebsite.Ipv4.{parse_address}
use networkbasicswebsite.Ipv4.Laws.{parse_address-Ends}
use networkbasicswebsite.Simulation.Network.{SimDevice, Network}
use networkbasicswebsite.Simulation.Forwarding.{lift, DeliveryOutcome, local_interface}
use networkbasicswebsite.Simulation.Forwarding.Details.{local_interface-Ends}
use networkbasicswebsite.Simulation.Forwarding.Safe.{
  IsSafe, lift-IsSafe, bind-IsSafe, trace_add-IsSafe,
}
use networkbasicswebsite.Simulation.Forwarding.Steps.{then-IsSafe}
use networkbasicswebsite.Simulation.Protocols.Resolve.{Target, resolve_destination, address_facing}
use networkbasicswebsite.Simulation.Protocols.Icmp.{
  final_or, hops_word, ping_report, ping_reply, ping_target, ping, trace_ping, trace_echo,
  trace_report, trace_tracing, traceroute_target, traceroute,
}
use networkbasicswebsite.Simulation.Protocols.Reported.{
  IsReported, IsSent, IsReachable, succeeded-IsSafe, failed-IsSafe, undelivered-IsSafe,
  delivery-IsSafe, delivered-IsSafe, required_device-IsSafe, deliver-IsReachable,
}

pub address_facing-Ends :
    (device : SimDevice) (destination : String) → Ends (address_facing device destination)
unfolding address_facing
address_facing-Ends device destination =
    Ends-bind (parse_address destination) _ (parse_address-Ends destination) (λ target.
      Ends-bind (local_interface target (values device.interfaces)) _
        (local_interface-Ends target (values device.interfaces)) (λ found. tt))

-- The destination resolved to the target, a packet of this protocol was delivered to its address, and
-- the summary tells of it.
pub record IsReached (lower : String → String) (net : Network)
    (source_id destination protocol : String) (tells : Target → DeliveryOutcome → String)
    (summary : String) : Type 0 where
  pub source : SimDevice
  pub known : lookup source_id net.devices ≡ some source
  pub target : Target
  pub resolved : resolve_destination lower net destination ≡ some target
  pub outcome : DeliveryOutcome
  pub reached : IsReachable net source target.address protocol outcome
  pub told : summary ≡ tells target outcome

-- The device at which the request ended replied to the address that the source would be answered at,
-- and the reply was delivered.
pub record IsAnsweredBack (net : Network) (source : SimDevice) (target : Target)
    (outcome : DeliveryOutcome) : Type 0 where
  pub responder : SimDevice
  pub responds :
      lookup (final_or outcome.final_device target.device.id) net.devices ≡ some responder
  pub own : Option String
  pub faces : address_facing source target.address ≡ ok own
  pub back : DeliveryOutcome
  pub returned : IsReachable net responder (or_empty own) "ICMP echo reply" back

abbrev pub ping_text : ℕ → Target → DeliveryOutcome → String
ping_text count target outcome = concat (
    "Reply from "
    ∷ target.address
    ∷ ": "
    ∷ str count
    ∷ "/"
    ∷ str count
    ∷ " received, "
    ∷ str outcome.hops
    ∷ " hop"
    ∷ hops_word outcome.hops
    ∷ [])

abbrev pub trace_text : Target → DeliveryOutcome → String
trace_text target outcome =
    concat (
      "Reached "
      ∷ target.address
      ∷ " in "
      ∷ str outcome.hops
      ∷ " hop"
      ∷ hops_word outcome.hops
      ∷ [])

-- The request reached the target, and the reply came back.
abbrev pub PingMeans : (String → String) → Network → String → String → ℕ → String → Type 0
PingMeans lower net source_id destination count summary =
    (reached : IsReached lower net source_id destination "ICMP echo request" (ping_text count)
      summary)
    × IsAnsweredBack net reached.source reached.target reached.outcome

abbrev pub TraceMeans : (String → String) → Network → String → String → String → Type 0
TraceMeans lower net source_id destination =
    IsReached lower net source_id destination "traceroute probe" trace_text

module _ (lower : String → String) (net : Network) (source_id destination : String)
    (source : SimDevice) (known : lookup source_id net.devices ≡ some source) (target : Target)
    (resolved : resolve_destination lower net destination ≡ some target) where
  pub reached_by :
      (protocol : String) (tells : Target → DeliveryOutcome → String) (outcome : DeliveryOutcome)
      → IsSent net source target.address protocol outcome
      → outcome.delivered ≡ true
      → IsReached lower net source_id destination protocol tells (tells target outcome)
  reached_by protocol tells outcome sent h = record {
    source = source;
    known = known;
    target = target;
    resolved = resolved;
    outcome = outcome;
    reached = deliver-IsReachable net source target.address protocol outcome sent h;
    told = refl;
  }

  abbrev Pinged : ℕ → String → Type 0
  Pinged = PingMeans lower net source_id destination

  ping_report-IsSafe :
      (count : ℕ) (outcome : DeliveryOutcome) (responder : SimDevice) (own : Option String)
      (back : DeliveryOutcome)
      → IsSent net source target.address "ICMP echo request" outcome
      → outcome.delivered ≡ true
      → lookup (final_or outcome.final_device target.device.id) net.devices ≡ some responder
      → address_facing source target.address ≡ ok own
      → IsSent net responder (or_empty own) "ICMP echo reply" back
      → IsSafe net (IsReported (Pinged count)) (ping_report count target outcome responder own back)
  unfolding ping_report reached_by
  ping_report-IsSafe count outcome responder own back sent h responds faces sent_back =
      delivered-IsSafe net (Pinged count) back.delivered _ _
        (λ lost. (failed-IsSafe net (Pinged count) "ICMP" _ _ _))
        (λ came.
          (succeeded-IsSafe net (Pinged count) "ICMP" _ (
            reached_by "ICMP echo request" (ping_text count) outcome sent h,
            record {
              responder = responder;
              responds = responds;
              own = own;
              faces = faces;
              back = back;
              returned =
                  deliver-IsReachable net responder (or_empty own) "ICMP echo reply" back sent_back
                    came;
            },
          )))

  ping_reply-IsSafe :
      (count : ℕ) (outcome : DeliveryOutcome)
      → IsSent net source target.address "ICMP echo request" outcome
      → IsSafe net (IsReported (Pinged count)) (ping_reply net source count target outcome)
  unfolding ping_reply trace_echo
  ping_reply-IsSafe count outcome honest =
      delivered-IsSafe net (Pinged count) outcome.delivered _ _
        (λ lost.
          (undelivered-IsSafe net (Pinged count) source target.address "ICMP" _ _ outcome honest.0
            lost))
        (λ came.
          (required_device-IsSafe net (Pinged count)
            (final_or outcome.final_device target.device.id) _
            (λ responder responds.
              bind-IsSafe net (λ own. address_facing source target.address ≡ ok own)
                (IsReported (Pinged count)) (lift (address_facing source target.address)) _
                (lift-IsSafe net _ (address_facing source target.address)
                  (address_facing-Ends source target.address) (λ own e. e))
                (λ own faces.
                  then-IsSafe net (IsReported (Pinged count)) (trace_echo target responder own) _
                    (trace_add-IsSafe net _ _ _ _ _ (λ h. cc))
                    (delivery-IsSafe net (Pinged count) responder (or_empty own) "ICMP echo reply" _
                      (λ back back_honest.
                        ping_report-IsSafe count outcome responder own back honest came responds
                          faces back_honest))))))

  ping_target-IsSafe :
      (count : ℕ)
      → IsSafe net
          (IsReported (Pinged count))
          (ping_target net source destination count (some target))
  unfolding ping_target trace_ping
  ping_target-IsSafe count =
      then-IsSafe net (IsReported (Pinged count)) (trace_ping source target count) _
        (trace_add-IsSafe net _ _ _ _ _ (λ h. cc))
        (delivery-IsSafe net (Pinged count) source target.address "ICMP echo request" _
          (ping_reply-IsSafe count))

  abbrev Reached : String → Type 0
  Reached = TraceMeans lower net source_id destination

  trace_report-IsSafe :
      (outcome : DeliveryOutcome)
      → IsSent net source target.address "traceroute probe" outcome
      → IsSafe net (IsReported Reached) (trace_report target outcome)
  unfolding trace_report
  trace_report-IsSafe outcome honest =
      delivered-IsSafe net Reached outcome.delivered _ _
        (λ lost.
          (undelivered-IsSafe net Reached source target.address "traceroute" _ _ outcome honest.0
            lost))
        (λ came.
          (succeeded-IsSafe net Reached "traceroute" _
            (reached_by "traceroute probe" trace_text outcome honest came)))

  traceroute_target-IsSafe :
      IsSafe net (IsReported Reached) (traceroute_target net source destination (some target))
  unfolding traceroute_target trace_tracing
  traceroute_target-IsSafe =
      then-IsSafe net (IsReported Reached) (trace_tracing source target) _
        (trace_add-IsSafe net _ _ _ _ _ (λ h. cc))
        (delivery-IsSafe net Reached source target.address "traceroute probe" _ trace_report-IsSafe)

module _ (lower : String → String) (net : Network) (source_id destination : String) where
  pub ping-IsSafe :
      (count : ℕ)
      → IsSafe net
          (IsReported (PingMeans lower net source_id destination count))
          (ping lower net source_id destination count)
  unfolding ping ping_target
  ping-IsSafe count = elim (Option-cases (lookup source_id net.devices)) [
    | inl e ↦ rw (e, ping) (failed-IsSafe net _ "ICMP" _ _ none)
    | inr (source, known) ↦ elim (Option-cases (resolve_destination lower net destination)) [
      | inl e ↦ rw (known, e, ping, ping_target) (failed-IsSafe net _ "ICMP" _ _ _)
      | inr (target, e) ↦
          rw (known, e, ping)
            (ping_target-IsSafe lower net source_id destination source known target e count)
    ]
  ]

  pub traceroute-IsSafe :
      IsSafe net
        (IsReported (TraceMeans lower net source_id destination))
        (traceroute lower net source_id destination)
  unfolding traceroute traceroute_target
  traceroute-IsSafe = elim (Option-cases (lookup source_id net.devices)) [
    | inl e ↦ rw (e, traceroute) (failed-IsSafe net _ "ICMP" _ _ none)
    | inr (source, known) ↦ elim (Option-cases (resolve_destination lower net destination)) [
      | inl e ↦
          rw (known, e, traceroute, traceroute_target) (failed-IsSafe net _ "traceroute" _ _ none)
      | inr (target, e) ↦
          rw (known, e, traceroute)
            (traceroute_target-IsSafe lower net source_id destination source known target e)
    ]
  ]
