-- ===== src/Simulation/Protocols/Transport.antt =====
-- `tcp` and `udp`.
use networkbasicswebsite.Prelude.{
  ℕ, String, not, List, [], ◌∷◌, Option, none, some, if◌then◌else◌, ◌==◌, string_eq, lookup,
  required,
}
use networkbasicswebsite.Text.{concat, str, strip, or_empty, shown}
use networkbasicswebsite.Simulation.Trace.{EventKind, no_extra, no_frame, SimulationResult}
use networkbasicswebsite.Simulation.Network.{SimDevice, Network}
use networkbasicswebsite.Simulation.Forwarding.{
  M, pure, lift, ◌>>=◌, ◌>>◌, trace_add, DeliveryOutcome, deliver,
}
use networkbasicswebsite.Simulation.Protocols.Report.{succeeded, failed, unknown_source}
use networkbasicswebsite.Simulation.Protocols.Resolve.{Target, resolve_destination, address_facing}
use networkbasicswebsite.Simulation.Protocols.Icmp.{nothing_answers, final_or}

-- `{address}:{port}`
abbrev pub socket : String → ℕ → String
socket address port = concat (address ∷ ":" ∷ str port ∷ [])

pub record Segment : Type 0 where
  pub kind : EventKind
  pub device : SimDevice
  pub summary : String
  pub detail : String

-- The handshake, one data segment and the close.
unfoldable pub segments : SimDevice → SimDevice → String → ℕ → Option String → List Segment
segments source target address port source_address =
    record {
      kind = EventKind.tcp_syn;
      device = source;
      summary = concat ("SYN → " ∷ socket address port ∷ []);
      detail = "The client proposes a connection and its initial sequence number.";
    }
    ∷ record {
      kind = EventKind.tcp_syn_ack;
      device = target;
      summary = concat ("SYN-ACK → " ∷ shown source_address ∷ []);
      detail = "The server acknowledges and sends its own sequence number.";
    }
    ∷ record {
      kind = EventKind.tcp_ack;
      device = source;
      summary = concat ("ACK → " ∷ socket address port ∷ []);
      detail = "The connection is established; data can now flow.";
    }
    ∷ record {
      kind = EventKind.tcp_data;
      device = source;
      summary = concat ("Data → " ∷ socket address port ∷ []);
      detail = "Payload travels only after the handshake completes.";
    }
    ∷ record {
      kind = EventKind.tcp_fin;
      device = source;
      summary = "FIN, ACK, FIN, ACK";
      detail = "Closing takes four messages, not three — a favourite exam point.";
    }
    ∷ []

unfoldable pub trace_segment : SimDevice → String → Option String → Segment → M (Unit {0})
trace_segment source address source_address segment =
    let own = segment.device.id == source.id in
    trace_add segment.kind segment.device.id segment.device.name segment.summary (record no_extra {
      detail = some segment.detail;
      frame = some (record no_frame {
        source_ip = if own then source_address else some address;
        destination_ip = if own then some address else source_address;
        protocol = some "TCP";
      });
    })

unfoldable pub trace_segments : SimDevice → String → Option String → List Segment → M (Unit {0})
trace_segments source address source_address [] = pure tt
trace_segments source address source_address (segment ∷ rest) = do
  trace_segment source address source_address segment
  trace_segments source address source_address rest

unfoldable pub tcp_exchange :
    Network → SimDevice → ℕ → Target → DeliveryOutcome → M SimulationResult
tcp_exchange net source port resolved outcome =
    if not outcome.delivered
    then failed "TCP" (concat ("Connection to " ∷ socket resolved.address port ∷ " failed" ∷ []))
        outcome.reason outcome.hint
    else do
      target ←
          lift (required (lookup (final_or outcome.final_device resolved.device.id) net.devices))
      source_address ← lift (address_facing source resolved.address)
      trace_segments source resolved.address source_address
          (segments source target resolved.address port source_address)
      succeeded "TCP" (
          concat (
            "Connection to "
            ∷ socket resolved.address port
            ∷ " established and closed cleanly"
            ∷ []))

unfoldable pub trace_opening : SimDevice → String → ℕ → M (Unit {0})
trace_opening source address port =
    trace_add EventKind.note source.id source.name
      (concat ("Opening a TCP connection to " ∷ socket address port ∷ [])) no_extra

unfoldable pub tcp_target : Network → SimDevice → String → ℕ → Option Target → M SimulationResult
tcp_target net source destination port none =
    failed "TCP" (concat ("Cannot open a connection to " ∷ destination ∷ []))
      (nothing_answers destination) none
tcp_target net source destination port (some resolved) = do
  trace_opening source resolved.address port
  outcome ← deliver net source resolved.address (concat ("TCP SYN → :" ∷ str port ∷ [])) ""
  tcp_exchange net source port resolved outcome

-- `tcp`
unfoldable pub tcp : (String → String) → Network → String → String → ℕ → M SimulationResult
tcp lower net source_id destination port = elim (lookup source_id net.devices) [
  | none ↦ unknown_source "TCP"
  | some source ↦ tcp_target net source destination port (resolve_destination lower net destination)
]

unfoldable pub udp_report : Target → ℕ → DeliveryOutcome → M SimulationResult
udp_report resolved port outcome =
    if not outcome.delivered
    then failed "UDP" (concat ("Datagram to " ∷ socket resolved.address port ∷ " was lost" ∷ []))
        outcome.reason
        (some (
          strip (
            concat (
              or_empty outcome.hint
              ∷ " With UDP the sender is never told — the loss is silent."
              ∷ []))))
    else succeeded "UDP" (
        concat ("Datagram delivered to " ∷ socket resolved.address port ∷ " (unacknowledged)" ∷ []))

unfoldable pub trace_datagram : SimDevice → String → ℕ → M (Unit {0})
trace_datagram source address port =
    trace_add EventKind.udp_datagram source.id source.name
      (concat ("UDP datagram → " ∷ socket address port ∷ []))
      (record no_extra {
        detail = some (
            concat (
              "No handshake and no acknowledgement — the datagram is sent and "
              ∷ "forgotten. This is why voice and video use UDP." ∷ []));
      })

unfoldable pub udp_target : Network → SimDevice → String → ℕ → Option Target → M SimulationResult
udp_target net source destination port none =
    failed "UDP" (concat ("Cannot send to " ∷ destination ∷ [])) (nothing_answers destination) none
udp_target net source destination port (some resolved) = do
  trace_datagram source resolved.address port
  outcome ← deliver net source resolved.address (concat ("UDP → :" ∷ str port ∷ [])) ""
  udp_report resolved port outcome

-- `udp`
unfoldable pub udp : (String → String) → Network → String → String → ℕ → M SimulationResult
udp lower net source_id destination port = elim (lookup source_id net.devices) [
  | none ↦ unknown_source "UDP"
  | some source ↦ udp_target net source destination port (resolve_destination lower net destination)
]
