-- ===== src/Simulation/Protocols/Exchanges.antt =====
-- What a successful `arp` or `dns` means.
use networkbasicswebsite.Prelude.{
  refl, ◌≡◌, inl, inr, String, List, [], ◌∷◌, Option, none, some, string_eq, lookup, values,
  Option-cases,
}
use networkbasicswebsite.Text.{before_dot, concat}
use networkbasicswebsite.Simulation.Network.{SimInterface, SimDevice, Network, device_by_name}
use networkbasicswebsite.Simulation.Forwarding.{DeliveryOutcome, choose_egress, resolve_arp}
use networkbasicswebsite.Simulation.Forwarding.Safe.{
  IsSafe, Any, IsAnswered, bind-IsSafe, trace_add-IsSafe, trace_fail-IsSafe,
}
use networkbasicswebsite.Simulation.Forwarding.Steps.{
  drop-IsQuiet, then-IsSafe, choose_egress-IsSafe,
}
use networkbasicswebsite.Simulation.Forwarding.ArpSound.{Answer, resolve_arp-IsSafe}
use networkbasicswebsite.Simulation.Forwarding.Returned.{IsReturned, returned-IsSafe}
use networkbasicswebsite.Simulation.Protocols.Resolve.{first_address}
use networkbasicswebsite.Simulation.Protocols.Icmp.{final_or, arp_report, arp_over, arp}
use networkbasicswebsite.Simulation.Protocols.Dns.{
  trace_query, trace_nxdomain, trace_response, dns_address, dns_answer, dns_reply, dns_from, dns,
}
use networkbasicswebsite.Simulation.Protocols.Reported.{
  IsReported, IsSent, IsReachable, succeeded-IsSafe, failed-IsSafe, undelivered-IsSafe,
  delivery-IsSafe, delivered-IsSafe, required_device-IsSafe, deliver-IsReachable,
}

-- The forwarder chose an egress and a next hop for the destination, and asked for its MAC, which a
-- live port that holds the next hop's address gave.
pub record IsResolved (net : Network) (source_id destination summary : String) : Type 0 where
  pub source : SimDevice
  pub known : lookup source_id net.devices ≡ some source
  pub egress : SimInterface
  pub next_hop : String
  pub chosen : IsReturned net (choose_egress net source destination) (some (egress, next_hop))
  pub mac : String
  pub asked : IsReturned net (resolve_arp net source egress next_hop) (some mac)
  pub answered : IsAnswered net source.id next_hop mac
  pub told : summary ≡ concat (next_hop ∷ " is at " ∷ mac ∷ [])

module _ (net : Network) (source_id destination : String) where
  abbrev Resolved : String → Type 0
  Resolved = IsResolved net source_id destination

  module _ (source : SimDevice) (known : lookup source_id net.devices ≡ some source) where
    arp_report-IsSafe :
        (egress : SimInterface) (next_hop : String) (answer : Option String)
        → IsReturned net (choose_egress net source destination) (some (egress, next_hop))
        → IsReturned net (resolve_arp net source egress next_hop) answer
        → Answer net source.id next_hop answer
        → IsSafe net (IsReported Resolved) (arp_report next_hop answer)
    unfolding arp_report
    arp_report-IsSafe egress next_hop none chosen asked h = failed-IsSafe net Resolved "ARP" _ _ _
    arp_report-IsSafe egress next_hop (some mac) chosen asked h =
        succeeded-IsSafe net Resolved "ARP" _ (record {
          source = source;
          known = known;
          egress = egress;
          next_hop = next_hop;
          chosen = chosen;
          mac = mac;
          asked = asked;
          answered = h;
          told = refl;
        })

    arp_over-IsSafe :
        (egress : Option (SimInterface × String))
        → IsReturned net (choose_egress net source destination) egress
        → IsSafe net (IsReported Resolved) (arp_over net source destination egress)
    unfolding arp_over
    arp_over-IsSafe none chosen = failed-IsSafe net Resolved "ARP" _ _ none
    arp_over-IsSafe (some (egress, next_hop)) chosen =
        let Asked = λ (answer : Option String).
          Answer net source.id next_hop answer
          × IsReturned net (resolve_arp net source egress next_hop) answer in
        bind-IsSafe net Asked (IsReported Resolved) (resolve_arp net source egress next_hop)
          (arp_report next_hop)
          (returned-IsSafe net (Answer net source.id next_hop)
            (resolve_arp net source egress next_hop)
            (resolve_arp-IsSafe net source egress next_hop))
          (λ answer both. arp_report-IsSafe egress next_hop answer chosen both.1 both.0)

  pub arp-IsSafe :
      IsSafe net (IsReported (IsResolved net source_id destination)) (arp net source_id destination)
  unfolding arp
  arp-IsSafe = elim (Option-cases (lookup source_id net.devices)) [
    | inl e ↦ rw (e, arp) (failed-IsSafe net _ "ARP" _ _ none)
    | inr (source, known) ↦
        let Chosen = λ (egress : Option (SimInterface × String)).
          Any net egress × IsReturned net (choose_egress net source destination) egress in
        rw (known, arp)
          (bind-IsSafe net Chosen (IsReported Resolved) (choose_egress net source destination)
            (arp_over net source destination)
            (returned-IsSafe net (Any net) (choose_egress net source destination)
              (choose_egress-IsSafe net source destination))
            (λ egress both. arp_over-IsSafe source known egress both.1))
  ]

-- A query to the device's first DNS server was delivered, and a device of that name has the address
-- that is told on a port.
pub record IsNamed (lower : String → String) (net : Network) (source_id hostname summary : String)
    : Type 0 where
  pub source : SimDevice
  pub known : lookup source_id net.devices ≡ some source
  pub resolver : String
  pub others : List String
  pub configured : source.config.dns_servers ≡ resolver ∷ others
  pub outcome : DeliveryOutcome
  pub reached : IsReachable net source resolver "DNS query" outcome
  pub answer : SimDevice
  pub named : device_by_name lower net (before_dot hostname) ≡ some answer
  pub address : String
  pub held : first_address (values answer.interfaces) ≡ some address
  pub told : summary ≡ concat (hostname ∷ " resolves to " ∷ address ∷ [])

module _ (lower : String → String) (net : Network) (source_id hostname : String) where
  abbrev Named : String → Type 0
  Named = IsNamed lower net source_id hostname

  module _ (source : SimDevice) (known : lookup source_id net.devices ≡ some source)
      (resolver : String) (others : List String)
      (configured : source.config.dns_servers ≡ resolver ∷ others) where
    dns_answer-IsSafe :
        (outcome : DeliveryOutcome)
        → IsReachable net source resolver "DNS query" outcome
        → IsSafe net (IsReported Named) (
            dns_answer net hostname resolver outcome
              (device_by_name lower net (before_dot hostname)))
    unfolding dns_answer dns_address trace_nxdomain trace_response
    dns_answer-IsSafe outcome reached =
        elim (Option-cases (device_by_name lower net (before_dot hostname))) [
          | inl e ↦ rw e (
              required_device-IsSafe net Named (final_or outcome.final_device resolver) _
                (λ device _.
                  then-IsSafe net (IsReported Named) (trace_nxdomain device hostname) _
                    (trace_fail-IsSafe net _ _ _ _ _ _ (drop-IsQuiet _))
                    (failed-IsSafe net Named "DNS" _ _ _)))
          | inr (answer, e) ↦ elim (Option-cases (first_address (values answer.interfaces))) [
            | inl none_held ↦ rw (e, none_held) (failed-IsSafe net Named "DNS" _ _ none)
            | inr (address, held) ↦
                rw (e, held)
                  (then-IsSafe net (IsReported Named) (trace_response answer hostname address) _
                    (trace_add-IsSafe net _ _ _ _ _ (λ h. cc))
                    (succeeded-IsSafe net Named "DNS" _ (record {
                      source = source;
                      known = known;
                      resolver = resolver;
                      others = others;
                      configured = configured;
                      outcome = outcome;
                      reached = reached;
                      answer = answer;
                      named = e;
                      address = address;
                      held = held;
                      told = refl;
                    })))
          ]
        ]

    dns_reply-IsSafe :
        (outcome : DeliveryOutcome)
        → IsSent net source resolver "DNS query" outcome
        → IsSafe net (IsReported Named) (dns_reply lower net hostname resolver outcome)
    unfolding dns_reply
    dns_reply-IsSafe outcome honest =
        delivered-IsSafe net Named outcome.delivered _ _
          (λ lost. undelivered-IsSafe net Named source resolver "DNS" _ _ outcome honest.0 lost)
          (λ came.
            dns_answer-IsSafe outcome
              (deliver-IsReachable net source resolver "DNS query" outcome honest came))

  dns_from-IsSafe :
      (source : SimDevice) (servers : List String)
      → lookup source_id net.devices ≡ some source
      → source.config.dns_servers ≡ servers
      → IsSafe net (IsReported Named) (dns_from lower net source hostname servers)
  unfolding dns_from trace_query
  dns_from-IsSafe source [] known configured = failed-IsSafe net Named "DNS" _ _ _
  dns_from-IsSafe source (resolver ∷ rest) known configured =
      then-IsSafe net (IsReported Named) (trace_query source hostname resolver) _
        (trace_add-IsSafe net _ _ _ _ _ (λ h. cc))
        (delivery-IsSafe net Named source resolver "DNS query" _
          (dns_reply-IsSafe source known resolver rest configured))

  pub dns-IsSafe :
      IsSafe net
        (IsReported (IsNamed lower net source_id hostname))
        (dns lower net source_id hostname)
  unfolding dns
  dns-IsSafe = elim (Option-cases (lookup source_id net.devices)) [
    | inl e ↦ rw (e, dns) (failed-IsSafe net Named "DNS" _ _ none)
    | inr (source, known) ↦
        rw (known, dns) (dns_from-IsSafe source source.config.dns_servers known refl)
  ]
