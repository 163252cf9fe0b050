-- ===== src/Simulation/Trace/Numbered.antt =====
-- The steps of a trace are numbered 1, 2, 3, … whatever is added.
use networkbasicswebsite.Prelude.{ℕ, ◌+◌, ◌≡◌, String, List, [], ◌∷◌, ◌++◌, length, arith}
use networkbasicswebsite.Simulation.Trace.Builder.{EventKind, TraceEvent, Extra, add}

-- The events are numbered from `n` on.
abbrev pub NumberedFrom : ℕ → List TraceEvent → Type 0
NumberedFrom n [] = Unit
NumberedFrom n (event ∷ rest) = (event.step ≡ n) × NumberedFrom (n + 1) rest

abbrev pub IsNumbered : List TraceEvent → Type 0
IsNumbered events = NumberedFrom 1 events

NumberedFrom-snoc :
    (n : ℕ) (events : List TraceEvent) (event : TraceEvent)
    → NumberedFrom n events
    → event.step ≡ n + length events
    → NumberedFrom n (events ++ event ∷ [])
NumberedFrom-snoc n [] event h e = ground arith
NumberedFrom-snoc n (first ∷ rest) event h e =
    (h.0, NumberedFrom-snoc (n + 1) rest event h.1 (omega arith))

-- `TraceBuilder.add` keeps the events numbered 1, 2, 3 and so on, in their order.
pub add-IsNumbered :
    (kind : EventKind) (device_id device_name summary : String) (extra : Extra)
    (events : List TraceEvent)
    → IsNumbered events
    → IsNumbered (add kind device_id device_name summary extra events)
unfolding add
add-IsNumbered kind device_id device_name summary extra events h =
    NumberedFrom-snoc 1 events _ h (omega arith)
