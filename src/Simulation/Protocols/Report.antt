-- ===== src/Simulation/Protocols/Report.antt =====
-- The results of the exchanges: each holds the events of the run up to its return.
use networkbasicswebsite.Prelude.{String, Bool, true, false, Option, none, some}
use networkbasicswebsite.Simulation.Trace.{SimulationResult}
use networkbasicswebsite.Simulation.Forwarding.{M, pure, ◌>>=◌, get_events}

-- `SimulationResult(…, events=self.trace.events)`
unfoldable pub report : Bool → String → String → Option String → Option String → M SimulationResult
report success protocol summary failure_reason hint = do
  events ← get_events
  pure (record {
    success = success;
    protocol = protocol;
    summary = summary;
    failure_reason = failure_reason;
    hint = hint;
    events = events;
  })

abbrev pub succeeded : String → String → M SimulationResult
succeeded protocol summary = report true protocol summary none none

abbrev pub failed : String → String → Option String → Option String → M SimulationResult
failed protocol summary failure_reason hint = report false protocol summary failure_reason hint

-- `_unknown_source`
abbrev pub unknown_source : String → M SimulationResult
unknown_source protocol =
    failed protocol "Unknown source device" (some "That device is not in this topology.") none
