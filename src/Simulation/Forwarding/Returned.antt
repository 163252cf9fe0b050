-- ===== src/Simulation/Forwarding/Returned.antt =====
-- A step of the forwarder that returned: from which state, and what.
use networkbasicswebsite.Prelude.{
  ◌≡◌, refl, ap, Result, ok, raise, value_error, key_error, validation_error, diverged,
}
use networkbasicswebsite.Simulation.Network.{Network}
use networkbasicswebsite.Simulation.Forwarding.Run.{Run, M}
use networkbasicswebsite.Simulation.Forwarding.Safe.{IsValid, Post, IsSafe}

-- From a valid state of the forwarder the step returns this.
pub record IsReturned {A : Type 0} (net : Network) (m : M A) (a : A) : Type 0 where
  pub before : Run
  pub valid : IsValid net before
  pub returned : (m before).0 ≡ ok a

module _ (net : Network) {A : Type 0} (Q : A → Type 0) where
  Post-returned :
      (s : Run) (m : M A) (p : Result A × Run)
      → IsValid net s
      → m s ≡ p
      → Post net Q p
      → Post net (λ a. Q a × IsReturned net m a) p
  Post-returned s m (ok a, s') v e h =
      let returned : IsReturned net m a = record {
        before = s;
        valid = v;
        returned = ap (λ p. p.0) e;
      } in
      let both : Q a × IsReturned net m a = (h.1, returned) in (h.0, both)
  Post-returned s m (raise value_error, s') v e h = h
  Post-returned s m (raise key_error, s') v e h = h
  Post-returned s m (raise (validation_error message), s') v e h = h
  Post-returned s m (raise diverged, s') v e h = h

  pub returned-IsSafe : (m : M A) → IsSafe net Q m → IsSafe net (λ a. Q a × IsReturned net m a) m
  returned-IsSafe m h s v = Post-returned s m (m s) v refl (h s v)
