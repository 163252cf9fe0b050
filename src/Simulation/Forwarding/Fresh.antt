-- ===== src/Simulation/Forwarding/Fresh.antt =====
-- A new forwarder on a network that was used before: only the network's routing cache is kept.
use networkbasicswebsite.Prelude.{
  ◌≡◌, refl, ap, [], Result, ok, raise, value_error, key_error, validation_error, diverged,
}
use networkbasicswebsite.Simulation.Network.{Network, RoutingCache}
use networkbasicswebsite.Simulation.Network.BestRoute.{IsCoherent}
use networkbasicswebsite.Simulation.Forwarding.Run.{Run, M}
use networkbasicswebsite.Simulation.Forwarding.Safe.{IsValid, Post, IsSafe}

abbrev pub run_on : RoutingCache → Run
run_on cache = record { events = []; arp_cache = []; routing_cache = cache }

-- What a run on a new forwarder leaves behind.
abbrev pub kept_routes : {A : Type 0} → Run → Result A × Run → Result A × Run
kept_routes s (r, s') = (r, record s { routing_cache = s'.routing_cache })

-- A run of a `Simulator` that is made for it.
unfoldable pub fresh : {A : Type 0} → M A → M A
fresh m s = kept_routes s (m (run_on s.routing_cache))

-- The step returns this on a new forwarder, for some routing cache that holds what the network says.
pub record IsRun {A : Type 0} (net : Network) (m : M A) (a : A) : Type 0 where
  pub cache : RoutingCache
  pub coherent : IsCoherent net cache
  pub returned : (m (run_on cache)).0 ≡ ok a

module _ (net : Network) {A : Type 0} (Q : A → Type 0) where
  run_on-IsValid : (cache : RoutingCache) → IsCoherent net cache → IsValid net (run_on cache)
  run_on-IsValid cache coherent = record {
    numbered = tt;
    quiet = tt;
    coherent = coherent;
    arp_sound = λ device_id ip mac h. cc;
  }

  kept-IsValid :
      (s s' : Run)
      → IsValid net s
      → IsValid net s'
      → IsValid net (record s { routing_cache = s'.routing_cache })
  kept-IsValid s s' v v' = record {
    numbered = v.numbered;
    quiet = v.quiet;
    coherent = v'.coherent;
    arp_sound = v.arp_sound;
  }

  Post-kept :
      (s : Run) (m : M A) (p : Result A × Run)
      → IsValid net s
      → m (run_on s.routing_cache) ≡ p
      → Post net Q p
      → Post net (λ a. Q a × IsRun net m a) (kept_routes s p)
  Post-kept s m (ok a, s') v e h =
      let ran : IsRun net m a = record {
        cache = s.routing_cache;
        coherent = v.coherent;
        returned = ap (λ p. p.0) e;
      } in
      let both : Q a × IsRun net m a = (h.1, ran) in (kept-IsValid s s' v h.0, both)
  Post-kept s m (raise value_error, s') v e h = (kept-IsValid s s' v h.0, tt)
  Post-kept s m (raise key_error, s') v e h = (kept-IsValid s s' v h.0, tt)
  Post-kept s m (raise (validation_error message), s') v e h = (kept-IsValid s s' v h.0, tt)
  Post-kept s m (raise diverged, s') v e h = h

  pub fresh-IsSafe : (m : M A) → IsSafe net Q m → IsSafe net (λ a. Q a × IsRun net m a) (fresh m)
  unfolding fresh
  fresh-IsSafe m h s v =
      Post-kept s m (m (run_on s.routing_cache)) v refl
        (h (run_on s.routing_cache) (run_on-IsValid s.routing_cache v.coherent))
