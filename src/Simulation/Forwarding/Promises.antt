-- ===== src/Simulation/Forwarding/Promises.antt =====
-- What the forwarder promises its callers: `Forwarder.deliver` and `Forwarder.resolve_arp`.
use networkbasicswebsite.Prelude.{
  ◌≡◌, ◌≢◌, refl, inl, String, [], Option, none, some, arith, values, Result, ok, raise, subst,
  value_error, key_error, validation_error, diverged,
}
use networkbasicswebsite.Simulation.Network.{SimInterface, SimDevice, Network}
use networkbasicswebsite.Simulation.Network.BestRoute.{IsCoherent-empty}
use networkbasicswebsite.Simulation.Forwarding.Run.{Run, pure, trace_fail}
use networkbasicswebsite.Simulation.Forwarding.Arp.{resolve_arp}
use networkbasicswebsite.Simulation.Forwarding.Deliver.{
  DeliveryOutcome, undelivered, source_interface, deliver_from, deliver, default_ttl, max_hops,
}
use networkbasicswebsite.Simulation.Forwarding.Safe.{
  IsAnswered, IsValid, Post, IsSafe, pure-IsSafe, trace_fail-IsSafe,
}
use networkbasicswebsite.Simulation.Forwarding.Steps.{drop-IsQuiet, then-IsSafe}
use networkbasicswebsite.Simulation.Forwarding.ArpSound.{Answer, resolve_arp-IsSafe}
use networkbasicswebsite.Simulation.Forwarding.Delivery.{
  IsHonest, undelivered-IsHonest, deliver_loop-IsSafe,
}

-- A new `Forwarder` on a new `Network`.
abbrev pub start : Run
start = record { events = []; arp_cache = []; routing_cache = [] }

pub start-IsValid : (net : Network) → IsValid net start
start-IsValid net = record {
  numbered = tt;
  quiet = tt;
  coherent = IsCoherent-empty net;
  arp_sound = λ device_id ip mac h. cc;
}

module _ (net : Network) {A : Type 0} (Q : A → Type 0) where
  pub Post-IsValid : (r : Result A) (s : Run) → Post net Q (r, s) → IsValid net s
  Post-IsValid (ok a) s h = h.0
  Post-IsValid (raise value_error) s h = h.0
  Post-IsValid (raise key_error) s h = h.0
  Post-IsValid (raise (validation_error message)) s h = h.0
  Post-IsValid (raise diverged) s h = absurd h

  pub Post-result : (r : Result A) (s : Run) (a : A) → Post net Q (r, s) → r ≡ ok a → Q a
  Post-result (ok b) s a h e = let same : b ≡ a = ground (arith, e) in subst Q same h.1
  Post-result (raise exn) s a h e = cc

  pub Post-ne-diverged : (r : Result A) (s : Run) → Post net Q (r, s) → r ≢ raise diverged
  Post-ne-diverged (ok b) s h e = cc
  Post-ne-diverged (raise value_error) s h e = cc
  Post-ne-diverged (raise key_error) s h e = cc
  Post-ne-diverged (raise (validation_error message)) s h e = cc
  Post-ne-diverged (raise diverged) s h e = h

module _ (net : Network) (source : SimDevice) (destination_ip protocol payload : String) where
  deliver_from-IsSafe :
      (port : Option SimInterface)
      → IsSafe net
          (IsHonest net source destination_ip)
          (deliver_from net source destination_ip protocol payload port)
  deliver_from-IsSafe none =
      then-IsSafe net (IsHonest net source destination_ip) (trace_fail _ _ _ _ _ _)
        (pure (undelivered _ _ 0 none)) (trace_fail-IsSafe net _ _ _ _ _ _ (drop-IsQuiet _))
        (pure-IsSafe net (IsHonest net source destination_ip) _
          (undelivered-IsHonest net source destination_ip _ _ 0 none (omega arith)))
  deliver_from-IsSafe (some port) =
      deliver_loop-IsSafe net source _ max_hops source default_ttl 0 (inl refl) (omega arith)
        (omega arith)

  pub deliver-IsSafe :
      IsSafe net
        (IsHonest net source destination_ip)
        (deliver net source destination_ip protocol payload)
  unfolding deliver
  deliver-IsSafe = deliver_from-IsSafe (source_interface (values source.interfaces))

  -- From a valid state `deliver` ends: none of the loops under it runs out of fuel.
  pub deliver-ne-diverged :
      (s : Run)
      → IsValid net s
      → (deliver net source destination_ip protocol payload s).0 ≢ raise diverged
  deliver-ne-diverged s v =
      Post-ne-diverged net (IsHonest net source destination_ip) _ _ (deliver-IsSafe s v)

  -- From a valid state `deliver` leaves a valid state, also where it raises an exception: the events
  -- are numbered without a gap, none reports an expired TTL, every cached routing table is the one
  -- that would be computed, and every ARP entry is the MAC of a live port that has the address.
  pub deliver-IsValid :
      (s : Run)
      → IsValid net s
      → IsValid net (deliver net source destination_ip protocol payload s).1
  deliver-IsValid s v =
      Post-IsValid net (IsHonest net source destination_ip)
        (deliver net source destination_ip protocol payload s).0
        (deliver net source destination_ip protocol payload s).1 (deliver-IsSafe s v)

  -- What `deliver` returns from a valid state is honest: if delivered, the final device is the
  -- source or a device of the network and owns the destination address; if not, there is a reason;
  -- and the hops are at most 16.
  pub deliver-IsHonest :
      (s : Run) (outcome : DeliveryOutcome)
      → IsValid net s
      → (deliver net source destination_ip protocol payload s).0 ≡ ok outcome
      → IsHonest net source destination_ip outcome
  deliver-IsHonest s outcome v e =
      Post-result net (IsHonest net source destination_ip)
        (deliver net source destination_ip protocol payload s).0
        (deliver net source destination_ip protocol payload s).1 outcome (deliver-IsSafe s v) e

module _ (net : Network) (device : SimDevice) (egress : SimInterface) (target_ip : String) where
  -- From a valid state a MAC that `resolve_arp` returns, cached or asked for, is that of a
  -- port that is up, has the address, and lies in a broadcast domain of the device.
  pub resolve_arp_sound :
      (s : Run) (mac : String)
      → IsValid net s
      → (resolve_arp net device egress target_ip s).0 ≡ ok (some mac)
      → IsAnswered net device.id target_ip mac
  resolve_arp_sound s mac v e =
      Post-result net (Answer net device.id target_ip) (resolve_arp net device egress target_ip s).0
        (resolve_arp net device egress target_ip s).1 (some mac)
        (resolve_arp-IsSafe net device egress target_ip s v) e

  -- From a valid state `resolve_arp` leaves a valid state and does not run out of fuel.
  pub resolve_arp-IsValid :
      (s : Run)
      → IsValid net s
      → IsValid net (resolve_arp net device egress target_ip s).1
        × ((resolve_arp net device egress target_ip s).0 ≢ raise diverged)
  resolve_arp-IsValid s v =
      let post = resolve_arp-IsSafe net device egress target_ip s v in
      (
        Post-IsValid net (Answer net device.id target_ip)
            (resolve_arp net device egress target_ip s).0
            (resolve_arp net device egress target_ip s).1 post,
        Post-ne-diverged net (Answer net device.id target_ip)
            (resolve_arp net device egress target_ip s).0
            (resolve_arp net device egress target_ip s).1 post,
      )
