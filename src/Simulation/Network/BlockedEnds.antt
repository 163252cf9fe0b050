-- ===== src/Simulation/Network/BlockedEnds.antt =====
-- The loop of `blocked_links_near` ends.
use networkbasicswebsite.Prelude.{
  ℕ, zero, suc, ◌+◌, ◌≤◌, ◌≡◌, refl, ap, ◌∙◌, inl, inr, String, false, List, [], ◌∷◌, Option, none,
  some, arith, string_eq, elem, length, length-append, Dict, keys, lookup, if◌then◌else◌,
  Bool-cases, Option-cases, List-cases, Result, ok, raise, value_error, key_error, validation_error,
  diverged, ◌>>=◌, Ends,
}
use networkbasicswebsite.Simulation.Network.Types.{
  Port, SimDevice, switches_frames, SimLink, peer, usable, Network,
}
use networkbasicswebsite.Simulation.Network.Queries.{link_on}
use networkbasicswebsite.Simulation.Network.Flood.{port_count}
use networkbasicswebsite.Simulation.Network.Blocked.{
  BlockedState, has_link, follow, inspect, inspect_all, blocked_step, blocked_loop,
  blocked_links_near,
}

-- The ports of the devices that are not in `seen`.
abbrev open_ports : List String → Dict String SimDevice → ℕ
open_ports seen [] = 0
open_ports seen ((id, device) ∷ rest) =
    (if elem id seen then 0 else length device.interfaces) + open_ports seen rest

open_ports-cons-le :
    (current : String) (seen : List String) (devices : Dict String SimDevice)
    → open_ports (current ∷ seen) devices ≤ open_ports seen devices
open_ports-cons-le current seen [] = omega arith
open_ports-cons-le current seen ((id, device) ∷ rest) =
    ground (arith, open_ports-cons-le current seen rest)

open_ports-cons :
    (current : String) (seen : List String) (device : SimDevice) (devices : Dict String SimDevice)
    → lookup current devices ≡ some device
    → elem current seen ≡ false
    → open_ports (current ∷ seen) devices + length device.interfaces ≤ open_ports seen devices
open_ports-cons current seen device [] h new = cc
open_ports-cons current seen device ((id, other) ∷ rest) h new = ground (
  arith,
  open_ports-cons current seen device rest,
  open_ports-cons-le current seen rest,
  string_eq.eqb_iff id current,
)

open_ports-le :
    (seen : List String) (devices : Dict String SimDevice)
    → open_ports seen devices ≤ port_count devices
unfolding port_count
open_ports-le seen [] = omega arith
open_ports-le seen ((id, device) ∷ rest) = ground (arith, open_ports-le seen rest)

length-keys {ℓ κ} : {K : Type ℓ} {V : Type κ} (d : Dict K V) → length (keys d) ≡ length d
length-keys [] = refl
length-keys (p ∷ d) = ap suc (length-keys d)

module _ (net : Network) where
  -- At most `n` entries are added to the queue, and `seen` stays.
  abbrev Adds : ℕ → BlockedState → Result BlockedState → Type 0
  Adds n s (ok t) = (t.seen ≡ s.seen) × (length t.queue ≤ length s.queue + n)
  Adds n s (raise value_error) = Unit
  Adds n s (raise key_error) = Unit
  Adds n s (raise (validation_error message)) = Unit
  Adds n s (raise diverged) = ⊥

  follow-Adds : (far : Option Port) (s : BlockedState) → Adds 1 s (follow net far s)
  unfolding follow
  follow-Adds none s = (refl, omega arith)
  follow-Adds (some p) s = elim (Bool-cases (elem p.0 s.seen)) [
    | inl old ↦ rw old (refl, omega arith)
    | inr new ↦ elim (Option-cases (lookup p.0 net.devices)) [
      | inl unknown ↦ rw (new, unknown) tt
      | inr (device, known) ↦ elim (Bool-cases (switches_frames device)) [
        | inl e ↦ rw (new, known, e) (refl, omega (arith, length-append s.queue (p.0 ∷ [])))
        | inr e ↦ rw (new, known, e) (refl, omega arith)
      ]
    ]
  ]

  inspect-Adds : (current name : String) (s : BlockedState) → Adds 1 s (inspect net current name s)
  unfolding inspect
  inspect-Adds current name s = elim (Option-cases (link_on net current name)) [
    | inl e ↦ rw (e, inspect) (refl, omega arith)
    | inr (link, e) ↦ elim (Bool-cases (usable link)) [
      | inl up ↦ rw (e, up, inspect) (follow-Adds (peer link current name) s)
      | inr down ↦ elim (Bool-cases (has_link link s.blocked)) [
        | inl known ↦ rw (e, down, known, inspect) (refl, omega arith)
        | inr new ↦ rw (e, down, new, inspect) (refl, omega arith)
      ]
    ]
  ]

  Adds-bind :
      (n : ℕ) (s : BlockedState) (r : Result BlockedState) (f : BlockedState → Result BlockedState)
      → Adds 1 s r
      → ((t : BlockedState) → Adds n t (f t))
      → Adds (suc n) s (r >>= f)
  Adds-bind n s (ok t) f h k = go (f t) (k t)
    where
      go : (r : Result BlockedState) → Adds n t r → Adds (suc n) s r
      go (ok u) g = (g.0 ∙ h.0, omega arith)
      go (raise value_error) g = tt
      go (raise key_error) g = tt
      go (raise (validation_error message)) g = tt
      go (raise diverged) g = g
  Adds-bind n s (raise value_error) f h k = tt
  Adds-bind n s (raise key_error) f h k = tt
  Adds-bind n s (raise (validation_error message)) f h k = tt
  Adds-bind n s (raise diverged) f h k = h

  inspect_all-Adds :
      (current : String) (names : List String) (s : BlockedState)
      → Adds (length names) s (inspect_all net current names s)
  unfolding inspect_all
  inspect_all-Adds current [] s = (refl, omega arith)
  inspect_all-Adds current (name ∷ rest) s =
      Adds-bind (length rest) s (inspect net current name s) _ (inspect-Adds current name s)
        (λ t. inspect_all-Adds current rest t)

  abbrev work : BlockedState → ℕ
  work s = length s.queue + open_ports s.seen net.devices

  -- A round leaves no more work than there was behind the head of the queue.
  abbrev Shrinks : ℕ → Result BlockedState → Type 0
  Shrinks n (ok t) = work t ≤ n
  Shrinks n (raise value_error) = Unit
  Shrinks n (raise key_error) = Unit
  Shrinks n (raise (validation_error message)) = Unit
  Shrinks n (raise diverged) = ⊥

  Shrinks-of_Adds :
      (n k : ℕ) (s : BlockedState) (r : Result BlockedState)
      → Adds k s r
      → length s.queue + k + open_ports s.seen net.devices ≤ n
      → Shrinks n r
  Shrinks-of_Adds n k s (ok t) h b =
      let same = ap (λ seen. open_ports seen net.devices) h.0 in omega arith
  Shrinks-of_Adds n k s (raise value_error) h b = tt
  Shrinks-of_Adds n k s (raise key_error) h b = tt
  Shrinks-of_Adds n k s (raise (validation_error message)) h b = tt
  Shrinks-of_Adds n k s (raise diverged) h b = h

  blocked_step-Shrinks :
      (current : String) (rest : List String) (s : BlockedState)
      → Shrinks (length rest + open_ports s.seen net.devices) (blocked_step net current rest s)
  unfolding blocked_step
  blocked_step-Shrinks current rest s = elim (Bool-cases (elem current s.seen)) [
    | inl old ↦ rw old (omega arith)
    | inr new ↦ elim (Option-cases (lookup current net.devices)) [
      | inl unknown ↦
          rw (new, unknown, blocked_step)
            (omega (arith, open_ports-cons-le current s.seen net.devices))
      | inr (device, known) ↦
          rw (new, known, blocked_step)
            (Shrinks-of_Adds _ _
              (record { seen = current ∷ s.seen; queue = rest; blocked = s.blocked }) _
              (inspect_all-Adds current (keys device.interfaces) _)
              (omega (
                arith,
                open_ports-cons current s.seen device net.devices known new,
                length-keys device.interfaces,
              )))
    ]
  ]

  Shrinks-bind :
      (n : ℕ) (r : Result BlockedState) (f : BlockedState → Result (List SimLink))
      → Shrinks n r
      → ((t : BlockedState) → work t ≤ n → Ends (f t))
      → Ends (r >>= f)
  Shrinks-bind n (ok t) f h k = k t h
  Shrinks-bind n (raise value_error) f h k = tt
  Shrinks-bind n (raise key_error) f h k = tt
  Shrinks-bind n (raise (validation_error message)) f h k = tt
  Shrinks-bind n (raise diverged) f h k = h

  blocked_loop-done :
      (fuel : ℕ) (s : BlockedState) → s.queue ≡ [] → blocked_loop fuel net s ≡ ok s.blocked
  unfolding blocked_loop
  blocked_loop-done zero s e = ground arith
  blocked_loop-done (suc fuel) s e = ground arith

  blocked_loop-step :
      (fuel : ℕ) (s : BlockedState) (current : String) (rest : List String)
      → s.queue ≡ current ∷ rest
      → blocked_loop (suc fuel) net s
        ≡ (blocked_step net current rest s >>= λ t. blocked_loop fuel net t)
  unfolding blocked_loop
  blocked_loop-step fuel s current rest e = simp (e, blocked_loop)

  blocked_loop-Ends : (fuel : ℕ) (s : BlockedState) → work s ≤ fuel → Ends (blocked_loop fuel net s)
  blocked_loop-Ends zero s h = elim (List-cases s.queue) [
    | inl empty ↦ rw (blocked_loop-done zero s empty) tt
    | inr (current, rest, e) ↦ absurd (omega (arith, ap length e))
  ]
  blocked_loop-Ends (suc fuel) s h = elim (List-cases s.queue) [
    | inl empty ↦ rw (blocked_loop-done (suc fuel) s empty) tt
    | inr (current, rest, e) ↦
        let shorter = ap length e in
        rw (blocked_loop-step fuel s current rest e) (
          Shrinks-bind _ (blocked_step net current rest s) _ (blocked_step-Shrinks current rest s)
            (λ t small. blocked_loop-Ends fuel t (omega arith)))
  ]

  -- The search for blocked links ends: the fuel suffices, whatever the network.
  pub blocked_links_near-Ends :
      (device_id interface : String) → Ends (blocked_links_near net device_id interface)
  unfolding blocked_links_near
  blocked_links_near-Ends device_id interface =
      blocked_loop-Ends _ _ (omega (arith, open_ports-le [] net.devices))
