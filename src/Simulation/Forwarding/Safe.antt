-- ===== src/Simulation/Forwarding/Safe.antt =====
-- The invariant of a run of the forwarder, and rules for what its steps keep and return.
use Prim.Native.Char.{Char, code}
use Prim.Native.String.{◌++◌}
use text.Mathlib.TextLemmas.{cons-append, head-eq_of_cons-eq}
use networkbasicswebsite.Prelude
use networkbasicswebsite.Prelude.{subst}
use networkbasicswebsite.Simulation.Network.{port_beq_iff}
use networkbasicswebsite.Prelude.{
  ℕ, ◌≡◌, ◌≢◌, refl, sym, ap, ◌∙◌, inl, inr, String, Bool, true, false, List, [], ◌∷◌, Option, none,
  some, arith, elem, string_eq, pair_eq, Dict, lookup, insert, lookup-insert, if◌then◌else◌,
  Bool-cases, ◌==◌, Result, ok, raise, Exn, diverged, Ends, value_error, key_error,
  validation_error,
}
use networkbasicswebsite.Text.{concat}
use networkbasicswebsite.Simulation.Trace.{EventKind, Extra, TraceEvent, add, fail, no_extra}
use networkbasicswebsite.Simulation.Trace.Numbered.{IsNumbered, add-IsNumbered}
use networkbasicswebsite.Simulation.Network.{
  Port, SimInterface, SimDevice, Network, RoutingCache, broadcast_domain,
}
use networkbasicswebsite.Simulation.Network.BestRoute.{IsCoherent}
use networkbasicswebsite.Simulation.Forwarding.Run.{
  Run, M, pure, lift, continue, ◌>>=◌, trace_add, trace_fail, get_arp, set_arp, with_routes,
}

abbrev pub expiry_text : String
expiry_text = "TTL expired in transit"

-- The event does not report that a TTL expired.
abbrev pub IsQuiet : EventKind → String → Type 0
IsQuiet kind summary = kind ≡ EventKind.timeout → summary ≢ expiry_text

abbrev pub AllQuiet : List TraceEvent → Type 0
AllQuiet [] = Unit
AllQuiet (event ∷ rest) = IsQuiet event.kind event.summary × AllQuiet rest

AllQuiet-snoc :
    (events : List TraceEvent) (event : TraceEvent)
    → AllQuiet events
    → IsQuiet event.kind event.summary
    → AllQuiet (Prelude.◌++◌ events (event ∷ []))
AllQuiet-snoc [] event h q = (q, tt)
AllQuiet-snoc (first ∷ rest) event h q = (h.0, AllQuiet-snoc rest event h.1 q)

pub arp_timeout-IsQuiet :
    (target_ip : String)
    → IsQuiet EventKind.timeout (concat ("ARP timed out for " ∷ target_ip ∷ []))
arp_timeout-IsQuiet target_ip _ h =
    let letter_a : Char = "A" in
    let letter_t : Char = "T" in
    let rest : String = "RP timed out for " in
    let e = sym (cons-append letter_a rest (target_ip ++ "")) ∙ h in
    let same : letter_a ≡ letter_t = head-eq_of_cons-eq e in
    absurd (let codes : code letter_a ≡ code letter_t = ap code same in omega arith)

-- The MAC was given by a live port with this address, in a broadcast domain of the device.
pub record IsAnswered (net : Network) (device_id ip mac : String) : Type 0 where
  pub egress : String
  pub vlan : Option ℕ
  pub domain : List Port
  pub flooded : broadcast_domain net device_id egress vlan ≡ ok domain
  pub at : Port
  pub in_domain : elem at domain ≡ true
  pub peer : SimDevice
  pub port : SimInterface
  pub known : lookup at.0 net.devices ≡ some peer
  pub present : lookup at.1 peer.interfaces ≡ some port
  pub up : port.enabled ≡ true
  pub holds : port.ip ≡ some ip
  pub mac_of : port.mac ≡ mac

abbrev pub IsArpSound : Network → Dict (String × String) String → Type 0
IsArpSound net cache =
    (device_id ip mac : String)
    → lookup (device_id, ip) cache ≡ some mac
    → IsAnswered net device_id ip mac

-- What holds of the forwarder's objects between any two of its calls.
pub record IsValid (net : Network) (s : Run) : Type 0 where
  pub numbered : IsNumbered s.events
  pub quiet : AllQuiet s.events
  pub coherent : IsCoherent net s.routing_cache
  pub arp_sound : IsArpSound net s.arp_cache

-- What a step guarantees: the invariant, and `Q` of what it returns; no loop ran out of fuel.
abbrev pub Post : {A : Type 0} → Network → (A → Type 0) → Result A × Run → Type 0
Post net Q (ok a, s) = IsValid net s × Q a
Post net Q (raise value_error, s) = IsValid net s × Unit
Post net Q (raise key_error, s) = IsValid net s × Unit
Post net Q (raise (validation_error message), s) = IsValid net s × Unit
Post net Q (raise diverged, s) = ⊥

abbrev pub IsSafe : {A : Type 0} → Network → (A → Type 0) → M A → Type 0
IsSafe net Q m = (s : Run) → IsValid net s → Post net Q (m s)

module _ (net : Network) where
  module _ {A : Type 0} (Q : A → Type 0) where
    pub pure-IsSafe : (a : A) → Q a → IsSafe net Q (pure a)
    pure-IsSafe a q s v = (v, q)

    pub lift-IsSafe : (r : Result A) → Ends r → ((a : A) → r ≡ ok a → Q a) → IsSafe net Q (lift r)
    lift-IsSafe (ok a) h q s v = (v, q a refl)
    lift-IsSafe (raise value_error) h q s v = (v, tt)
    lift-IsSafe (raise key_error) h q s v = (v, tt)
    lift-IsSafe (raise (validation_error message)) h q s v = (v, tt)
    lift-IsSafe (raise diverged) h q s v = h

  module _ {A B : Type 0} (Q : A → Type 0) (R : B → Type 0) where
    Post-continue :
        (p : Result A × Run) (f : A → M B)
        → Post net Q p
        → ((a : A) → Q a → IsSafe net R (f a))
        → Post net R (continue p f)
    Post-continue (ok a, s) f h k = k a h.1 s h.0
    Post-continue (raise value_error, s) f h k = (h.0, tt)
    Post-continue (raise key_error, s) f h k = (h.0, tt)
    Post-continue (raise (validation_error message), s) f h k = (h.0, tt)
    Post-continue (raise diverged, s) f h k = h

    pub bind-IsSafe :
        (m : M A) (f : A → M B)
        → IsSafe net Q m
        → ((a : A) → Q a → IsSafe net R (f a))
        → IsSafe net R (m >>= f)
    unfolding ◌>>=◌
    bind-IsSafe m f h k s v = Post-continue (m s) f (h s v) k

  abbrev pub Any : {A : Type 0} → A → Type 0
  Any a = Unit

  pub trace_add-IsSafe :
      (kind : EventKind) (device_id device_name summary : String) (extra : Extra)
      → IsQuiet kind summary
      → IsSafe net Any (trace_add kind device_id device_name summary extra)
  unfolding trace_add add
  trace_add-IsSafe kind device_id device_name summary extra q s v = (
    record {
      numbered = add-IsNumbered kind device_id device_name summary extra s.events v.numbered;
      quiet = AllQuiet-snoc s.events _ v.quiet q;
      coherent = v.coherent;
      arp_sound = v.arp_sound;
    },
    tt,
  )

  pub trace_fail-IsSafe :
      (kind : EventKind) (device_id device_name summary : String) (detail interface : Option String)
      → IsQuiet kind summary
      → IsSafe net Any (trace_fail kind device_id device_name summary detail interface)
  unfolding trace_fail trace_add fail
  trace_fail-IsSafe kind device_id device_name summary detail interface q =
      trace_add-IsSafe kind device_id device_name summary
        (record no_extra { interface = interface; detail = detail; ok = false }) q

  pub get_arp-IsSafe : IsSafe net (IsArpSound net) get_arp
  unfolding get_arp
  get_arp-IsSafe s v = (v, v.arp_sound)

  pub set_arp-IsSafe :
      (cache : Dict (String × String) String)
      → IsArpSound net cache
      → IsSafe net Any (set_arp cache)
  unfolding set_arp
  set_arp-IsSafe cache h s v =
      (record { numbered = v.numbered; quiet = v.quiet; coherent = v.coherent; arp_sound = h }, tt)

  pub with_routes-IsSafe :
      {A : Type 0} (f : RoutingCache → Result A × RoutingCache)
      → ((cache : RoutingCache) → IsCoherent net cache → IsCoherent net (f cache).1)
      → ((cache : RoutingCache) → Ends (f cache).0)
      → IsSafe net Any (with_routes f)
  unfolding with_routes
  with_routes-IsSafe f keeps ends s v =
      let v' : IsValid net (record s { routing_cache = (f s.routing_cache).1 }) = record {
        numbered = v.numbered;
        quiet = v.quiet;
        coherent = keeps s.routing_cache v.coherent;
        arp_sound = v.arp_sound;
      } in
      lift-IsSafe Any (f s.routing_cache).0 (ends s.routing_cache) (λ a e. tt) _ v'

IsAnswered-along :
    (net : Network) (key key' : String × String) (mac mac' : String) (rest : Option String)
    → (key == key') ≡ true
    → (if key == key' then some mac else rest) ≡ some mac'
    → IsAnswered net key.0 key.1 mac
    → IsAnswered net key'.0 key'.1 mac'
IsAnswered-along net key key' mac mac' rest same found answered =
    let e : key ≡ key' = (port_beq_iff key key').0 same in
    let found' : some mac ≡ some mac' = rw same at found in
    let stored : mac ≡ mac' = ground (arith, found') in
    let moved : IsAnswered net key'.0 key'.1 mac =
      subst (λ (k : String × String). IsAnswered net k.0 k.1 mac) e answered in
    subst (λ (m : String). IsAnswered net key'.0 key'.1 m) stored moved

-- Adding an answer to a sound ARP cache keeps it sound.
pub insert-IsArpSound :
    (net : Network) (device_id ip mac : String) (cache : Dict (String × String) String)
    → IsArpSound net cache
    → IsAnswered net device_id ip mac
    → IsArpSound net (insert (device_id, ip) mac cache)
insert-IsArpSound net device_id ip mac cache sound answered id' ip' mac' h =
    let key : String × String = (device_id, ip) in
    let key' : String × String = (id', ip') in
    let found : (if key == key' then some mac else lookup key' cache) ≡ some mac' =
      sym (lookup-insert key key' mac cache) ∙ h in
    elim (Bool-cases (key == key')) [
      | inl same ↦ IsAnswered-along net key key' mac mac' _ same found answered
      | inr differs ↦
          let left : lookup key' cache ≡ some mac' = rw differs at found in sound id' ip' mac' left
    ]
