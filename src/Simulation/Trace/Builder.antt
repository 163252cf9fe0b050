-- ===== src/Simulation/Trace/Builder.antt =====
-- `TraceBuilder`: its state is the list of events.
use networkbasicswebsite.Prelude.{
  ℕ, ◌+◌, String, Bool, true, false, List, [], ◌∷◌, ◌++◌, Option, none, length, keep,
}
use networkbasicswebsite.Text.{present, is_some}

pub data EventKind : Type 0 where
  arp_request arp_reply arp_cached switch_flood switch_forward switch_learn : EventKind
  route_lookup forward deliver reply : EventKind
  dhcp_discover dhcp_offer dhcp_request dhcp_ack dns_query dns_response : EventKind
  tcp_syn tcp_syn_ack tcp_ack tcp_data tcp_fin udp_datagram : EventKind
  drop timeout note : EventKind

pub record FrameSummary : Type 0 where
  pub source_mac : Option String
  pub destination_mac : Option String
  pub source_ip : Option String
  pub destination_ip : Option String
  pub protocol : Option String
  pub ttl : Option ℕ
  pub vlan : Option ℕ

pub record TraceEvent : Type 0 where
  pub step : ℕ
  pub kind : EventKind
  pub device_id : String
  pub device_name : String
  pub interface : Option String
  pub link_id : Option String
  pub to_device_id : Option String
  pub to_interface : Option String
  pub summary : String
  pub detail : Option String
  pub frame : Option FrameSummary
  pub ok : Bool

-- The keyword arguments of `TraceBuilder.add`, with their defaults.
pub record Extra : Type 0 where
  pub interface : Option String
  pub link_id : Option String
  pub to_device_id : Option String
  pub to_interface : Option String
  pub detail : Option String
  pub frame : Option FrameSummary
  pub ok : Bool

abbrev pub no_extra : Extra
no_extra = record {
  interface = none;
  link_id = none;
  to_device_id = none;
  to_interface = none;
  detail = none;
  frame = none;
  ok = true;
}

-- `FrameSummary()`
abbrev pub no_frame : FrameSummary
no_frame = record {
  source_mac = none;
  destination_mac = none;
  source_ip = none;
  destination_ip = none;
  protocol = none;
  ttl = none;
  vlan = none;
}

abbrev pub new_event : ℕ → EventKind → String → String → String → Extra → TraceEvent
new_event step kind device_id device_name summary extra = record {
  step = step;
  kind = kind;
  device_id = device_id;
  device_name = device_name;
  interface = extra.interface;
  link_id = extra.link_id;
  to_device_id = extra.to_device_id;
  to_interface = extra.to_interface;
  summary = summary;
  detail = extra.detail;
  frame = extra.frame;
  ok = extra.ok;
}

-- `TraceBuilder.add`
unfoldable pub add :
    EventKind → String → String → String → Extra → List TraceEvent → List TraceEvent
add kind device_id device_name summary extra events =
    events ++ new_event (length events + 1) kind device_id device_name summary extra ∷ []

-- `TraceBuilder.fail`, with the `interface` and `kind` arguments written out
unfoldable pub fail :
    EventKind
    → String
    → String
    → String
    → Option String
    → Option String
    → List TraceEvent
    → List TraceEvent
unfolding add
fail kind device_id device_name summary detail interface events =
    add kind device_id device_name summary
      (record no_extra { interface = interface; detail = detail; ok = false }) events

pub record SimulationResult : Type 0 where
  pub success : Bool
  pub protocol : String
  pub summary : String
  pub failure_reason : Option String
  pub hint : Option String
  pub events : List TraceEvent

-- `SimulationResult.animated_steps`: `if event.link_id` is false for None and for the empty text.
pub animated_steps : SimulationResult → List TraceEvent
animated_steps result = keep (λ event. is_some (present event.link_id)) result.events
