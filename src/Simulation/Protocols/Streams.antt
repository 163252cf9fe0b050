-- ===== src/Simulation/Protocols/Streams.antt =====
-- What a successful `tcp` or `udp` means.
use networkbasicswebsite.Prelude.{
  ℕ, ◌≡◌, inl, inr, String, List, [], ◌∷◌, Option, none, some, string_eq, lookup, Option-cases,
}
use networkbasicswebsite.Text.{concat, str}
use networkbasicswebsite.Simulation.Network.{SimDevice, Network}
use networkbasicswebsite.Simulation.Forwarding.{DeliveryOutcome}
use networkbasicswebsite.Simulation.Forwarding.Safe.{IsSafe, Any, IsQuiet, trace_add-IsSafe}
use networkbasicswebsite.Simulation.Forwarding.Steps.{then-IsSafe, lifted-IsSafe}
use networkbasicswebsite.Simulation.Protocols.Resolve.{Target, resolve_destination, address_facing}
use networkbasicswebsite.Simulation.Protocols.Icmp.{final_or}
use networkbasicswebsite.Simulation.Protocols.Transport.{
  socket, Segment, segments, trace_segment, trace_segments, trace_opening, tcp_exchange, tcp_target,
  tcp, trace_datagram, udp_report, udp_target, udp,
}
use networkbasicswebsite.Simulation.Protocols.Reported.{
  IsReported, IsSent, succeeded-IsSafe, failed-IsSafe, undelivered-IsSafe, delivery-IsSafe,
  delivered-IsSafe, required_device-IsSafe,
}
use networkbasicswebsite.Simulation.Protocols.Reaches.{IsReached, reached_by, address_facing-Ends}

-- A SYN to the port was delivered.
abbrev pub TcpMeans : (String → String) → Network → String → String → ℕ → String → Type 0
TcpMeans lower net source_id destination port =
    IsReached lower net source_id destination (concat ("TCP SYN → :" ∷ str port ∷ []))
      λ target outcome.
        concat
          ("Connection to " ∷ socket target.address port ∷ " established and closed cleanly" ∷ [])

-- A datagram to the port was delivered.
abbrev pub UdpMeans : (String → String) → Network → String → String → ℕ → String → Type 0
UdpMeans lower net source_id destination port =
    IsReached lower net source_id destination (concat ("UDP → :" ∷ str port ∷ [])) λ target outcome.
      concat ("Datagram delivered to " ∷ socket target.address port ∷ " (unacknowledged)" ∷ [])

module _ (lower : String → String) (net : Network) (source_id destination : String)
    (source : SimDevice) (known : lookup source_id net.devices ≡ some source) (target : Target)
    (resolved : resolve_destination lower net destination ≡ some target) where
  -- The kinds of the segments are no timeouts.
  abbrev AllLive : List Segment → Type 0
  AllLive [] = Unit
  AllLive (segment ∷ rest) = IsQuiet segment.kind segment.summary × AllLive rest

  trace_segments-IsSafe :
      (address : String) (own : Option String) (rest : List Segment)
      → AllLive rest
      → IsSafe net (Any net) (trace_segments source address own rest)
  unfolding trace_segments trace_segment
  trace_segments-IsSafe address own [] h = λ s v. (v, tt)
  trace_segments-IsSafe address own (segment ∷ rest) h =
      then-IsSafe net (Any net) (trace_segment source address own segment) _
        (trace_add-IsSafe net _ _ _ _ _ h.0) (trace_segments-IsSafe address own rest h.1)

  tcp_exchange-IsSafe :
      (port : ℕ) (outcome : DeliveryOutcome)
      → IsSent net source target.address (concat ("TCP SYN → :" ∷ str port ∷ [])) outcome
      → IsSafe net
          (IsReported (TcpMeans lower net source_id destination port))
          (tcp_exchange net source port target outcome)
  unfolding tcp_exchange segments
  tcp_exchange-IsSafe port outcome honest =
      delivered-IsSafe net (TcpMeans lower net source_id destination port) outcome.delivered _ _
        (λ lost.
          undelivered-IsSafe net (TcpMeans lower net source_id destination port) source
            target.address "TCP" _ _ outcome honest.0 lost)
        (λ came.
          required_device-IsSafe net (TcpMeans lower net source_id destination port)
            (final_or outcome.final_device target.device.id) _
            (λ far _.
              lifted-IsSafe net (IsReported (TcpMeans lower net source_id destination port))
                (address_facing source target.address) _ (address_facing-Ends source target.address)
                (λ own.
                  then-IsSafe net (IsReported (TcpMeans lower net source_id destination port))
                    (trace_segments source target.address own
                      (segments source far target.address port own))
                    _
                    (trace_segments-IsSafe target.address own
                      (segments source far target.address port own)
                      (λ h. cc, (λ h. cc, (λ h. cc, (λ h. cc, (λ h. cc, tt))))))
                    (succeeded-IsSafe net (TcpMeans lower net source_id destination port) "TCP" _ (
                      reached_by lower net source_id destination source known target resolved _ _
                        outcome honest came)))))

  udp_report-IsSafe :
      (port : ℕ) (outcome : DeliveryOutcome)
      → IsSent net source target.address (concat ("UDP → :" ∷ str port ∷ [])) outcome
      → IsSafe net
          (IsReported (UdpMeans lower net source_id destination port))
          (udp_report target port outcome)
  unfolding udp_report
  udp_report-IsSafe port outcome honest =
      delivered-IsSafe net (UdpMeans lower net source_id destination port) outcome.delivered _ _
        (λ lost.
          undelivered-IsSafe net (UdpMeans lower net source_id destination port) source
            target.address "UDP" _ _ outcome honest.0 lost)
        (λ came. succeeded-IsSafe net (UdpMeans lower net source_id destination port) "UDP" _ (
          reached_by lower net source_id destination source known target resolved _ _ outcome honest
            came))

module _ (lower : String → String) (net : Network) (source_id destination : String) (port : ℕ) where
  pub tcp-IsSafe :
      IsSafe net
        (IsReported (TcpMeans lower net source_id destination port))
        (tcp lower net source_id destination port)
  unfolding tcp tcp_target trace_opening
  tcp-IsSafe = elim (Option-cases (lookup source_id net.devices)) [
    | inl e ↦ rw (e, tcp) (failed-IsSafe net _ "TCP" _ _ none)
    | inr (source, known) ↦ elim (Option-cases (resolve_destination lower net destination)) [
      | inl e ↦ rw (known, e, tcp, tcp_target) (failed-IsSafe net _ "TCP" _ _ none)
      | inr (target, e) ↦
          rw (known, e, tcp, tcp_target)
            (then-IsSafe net (IsReported (TcpMeans lower net source_id destination port))
              (trace_opening source target.address port) _
              (trace_add-IsSafe net _ _ _ _ _ (λ h. cc))
              (delivery-IsSafe net (TcpMeans lower net source_id destination port) source
                target.address _ _
                (tcp_exchange-IsSafe lower net source_id destination source known target e port)))
    ]
  ]

  pub udp-IsSafe :
      IsSafe net
        (IsReported (UdpMeans lower net source_id destination port))
        (udp lower net source_id destination port)
  unfolding udp udp_target trace_datagram
  udp-IsSafe = elim (Option-cases (lookup source_id net.devices)) [
    | inl e ↦ rw (e, udp) (failed-IsSafe net _ "UDP" _ _ none)
    | inr (source, known) ↦ elim (Option-cases (resolve_destination lower net destination)) [
      | inl e ↦ rw (known, e, udp, udp_target) (failed-IsSafe net _ "UDP" _ _ none)
      | inr (target, e) ↦
          rw (known, e, udp, udp_target)
            (then-IsSafe net (IsReported (UdpMeans lower net source_id destination port))
              (trace_datagram source target.address port) _
              (trace_add-IsSafe net _ _ _ _ _ (λ h. cc))
              (delivery-IsSafe net (UdpMeans lower net source_id destination port) source
                target.address _ _
                (udp_report-IsSafe lower net source_id destination source known target e port)))
    ]
  ]
