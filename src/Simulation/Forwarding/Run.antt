-- ===== src/Simulation/Forwarding/Run.antt =====
-- The mutable objects of a `Forwarder`: the trace, its ARP cache, and the network's routing cache.
-- What was written before an exception stays written.
use networkbasicswebsite.Prelude.{String, List, Option, Dict, Result, ok, raise}
use networkbasicswebsite.Simulation.Trace.{EventKind, Extra, TraceEvent, add, fail}
use networkbasicswebsite.Simulation.Network.{RoutingCache}

pub record Run : Type 0 where
  pub events : List TraceEvent
  pub arp_cache : Dict (String × String) String
  pub routing_cache : RoutingCache

abbrev pub M : Type 0 → Type 0
M A = Run → Result A × Run

abbrev pub pure : {A : Type 0} → A → M A
pure a s = (ok a, s)

-- A pure step that may raise.
abbrev pub lift : {A : Type 0} → Result A → M A
lift r s = (r, s)

abbrev pub continue : {A B : Type 0} → Result A × Run → (A → M B) → Result B × Run
continue (ok a, s) f = f a s
continue (raise e, s) f = (raise e, s)

infixl 5 ◌>>=◌ ◌>>◌
unfoldable pub ◌>>=◌ : {A B : Type 0} → M A → (A → M B) → M B
◌>>=◌ m f s = continue (m s) f

abbrev pub ◌>>◌ : {B : Type 0} → M (Unit {0}) → M B → M B
m >> k = m >>= λ _. k

-- `self.trace.add(…)`
unfoldable pub trace_add : EventKind → String → String → String → Extra → M (Unit {0})
trace_add kind device_id device_name summary extra s =
    (ok tt, record s { events = add kind device_id device_name summary extra s.events })

-- `self.trace.fail(…)`
unfoldable pub trace_fail :
    EventKind → String → String → String → Option String → Option String → M (Unit {0})
trace_fail kind device_id device_name summary detail interface s =
    (ok tt, record s { events = fail kind device_id device_name summary detail interface s.events })

unfoldable pub get_arp : M (Dict (String × String) String)
get_arp s = (ok s.arp_cache, s)

unfoldable pub set_arp : Dict (String × String) String → M (Unit {0})
set_arp cache s = (ok tt, record s { arp_cache = cache })

-- A call of the network that reads and fills its routing cache.
unfoldable pub with_routes : {A : Type 0} → (RoutingCache → Result A × RoutingCache) → M A
with_routes f s = let (r, cache) = f s.routing_cache in (r, record s { routing_cache = cache })

-- `self.trace.events`
unfoldable pub get_events : M (List TraceEvent)
get_events s = (ok s.events, s)
