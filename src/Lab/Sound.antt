-- ===== src/Lab/Sound.antt =====
-- The rules that read the network: each ends, and its pass is sound.
use mathlib.Core.List.Memᴰ
use networkbasicswebsite.Prelude.{
  ℕ, ◌≡◌, refl, ap, subst, ◌∙◌, inl, inr, String, Bool, true, false, List, [], ◌∷◌, Option, none,
  some, arith, Memᴰ, ◌==◌, nat_eq, string_eq, option_eq, Option-cases, Bool-cases, Result-cases,
  Result, ok, Ends, Ends-bind, Ends-if, >>=-eq-ok,
}
use networkbasicswebsite.Text.{present}
use networkbasicswebsite.Ipv4.{Ipv4Network, parse_address, contains}
use networkbasicswebsite.Ipv4.Laws.{parse_address-Ends}
use networkbasicswebsite.Simulation.Network.{SimInterface, SimDevice, Network}
use networkbasicswebsite.Lab.Find.{
  Verdict, missing, find_device, find_interface, or_word, parse_subnet,
}
use networkbasicswebsite.Lab.Settings.{
  of_device, of_interface, with_subnet, addressed, first_inside, address_fault, mask_fault,
  state_fault, or_else, judged_fault,
}
use networkbasicswebsite.Lab.Demands.{IsConfigured, OfDevice}
use networkbasicswebsite.Lab.Judged.{IsSound, IsJudged}

pub returned-IsJudged : (D : Type 0) (v : Verdict) → IsSound D v → IsJudged D (ok v)
returned-IsJudged D v h = (tt, λ w e p. h (ground (arith, e, p)))

of_found-IsJudged :
    (D : Type 0) (reference : String) (found : Option SimDevice)
    (judge : SimDevice → Result Verdict)
    → ((device : SimDevice) → found ≡ some device → IsJudged D (judge device))
    → IsJudged D (elim found [ none ↦ ok (missing reference) | some device ↦ judge device ])
of_found-IsJudged D reference none judge h = returned-IsJudged D (missing reference) (λ p. cc)
of_found-IsJudged D reference (some device) judge h = h device refl

pub sound-map : {D E : Type 0} (r : Result Verdict) → (D → E) → IsJudged D r → IsJudged E r
sound-map r f h = (h.0, λ v e p. f (h.1 v e p))

module _ (lower : String → String) (order : List String → List String) (net : Network) where
  pub of_device-IsJudged :
      (D : SimDevice → Type 0) (reference : String) (judge : SimDevice → Result Verdict)
      → ((device : SimDevice) → IsJudged (D device) (judge device))
      → IsJudged (OfDevice lower order net reference D) (of_device lower net reference judge)
  unfolding of_device
  of_device-IsJudged D reference judge h =
      of_found-IsJudged (OfDevice lower order net reference D) reference
        (find_device lower net reference) judge
        (λ device e. sound-map (judge device) (λ d. (device, e, d)) (h device))

  pub of_interface-IsSound :
      (D : SimInterface → Type 0) (device : SimDevice) (name summary : String)
      (judge : SimInterface → Verdict)
      → ((port : SimInterface) → IsSound (D port) (judge port))
      → IsSound
          ((port : SimInterface) × (find_interface lower device name ≡ some port) × D port)
          (of_interface lower net device name summary judge)
  unfolding of_interface
  of_interface-IsSound D device name summary judge h p =
      elim (Option-cases (find_interface lower device name)) [
        | inl e ↦ absurd (ground (arith, rw (e, of_interface) at p))
        | inr (port, e) ↦ (port, e, h port (rw (e, of_interface) at p))
      ]

pub with_subnet-IsJudged :
    (D : Ipv4Network → Type 0) (network : String) (judge : Ipv4Network → Result Verdict)
    → ((n : Ipv4Network) → IsJudged (D n) (judge n))
    → IsJudged ((n : Ipv4Network) × (parse_subnet network ≡ ok n) × D n) (with_subnet network judge)
unfolding with_subnet
with_subnet-IsJudged D network judge h = elim (Result-cases (parse_subnet network)) [
  | inr (exn, e) ↦ rw (e, with_subnet) (tt, λ v returned p. absurd (ground (arith, returned, p)))
  | inl (n, e) ↦ rw (e, with_subnet) (sound-map (judge n) (λ d. (n, refl, d)) (h n))
]

-- The tests of an interface

address_fault-none :
    (address : Option String) (port : SimInterface)
    → address_fault address port ≡ none
    → ((a : String) → address ≡ some a → port.ip ≡ some a)
      × (address ≡ none → (ip : String) × (present port.ip ≡ some ip))
address_fault-none none port h = elim (Option-cases (present port.ip)) [
  | inl e ↦ absurd (ground (arith, rw (e, address_fault) at h))
  | inr (ip, e) ↦ (λ a same. cc, λ same. (ip, e))
]
address_fault-none (some address) port h = elim (Bool-cases (port.ip == some address)) [
  | inl e ↦
      let holds : port.ip ≡ some address = (option_eq.eqb_iff port.ip (some address)).0 e in
      (λ a same. ground (arith, holds, same), λ same. cc)
  | inr e ↦ absurd (ground (arith, rw (e, address_fault) at h))
]

mask_fault-none :
    (mask : Option String) (port : SimInterface)
    → mask_fault mask port ≡ none
    → (m : String) → mask ≡ some m
    → port.mask ≡ some m
mask_fault-none none port h m same = cc
mask_fault-none (some mask) port h m same = elim (Bool-cases (port.mask == some mask)) [
  | inl e ↦
      let holds : port.mask ≡ some mask = (option_eq.eqb_iff port.mask (some mask)).0 e in
      ground (arith, holds, same)
  | inr e ↦ absurd (ground (arith, rw (e, mask_fault) at h))
]

state_fault-none :
    (enabled : Option Bool) (up : Bool)
    → state_fault enabled up ≡ none
    → (b : Bool) → enabled ≡ some b
    → up ≡ b
state_fault-none none up h b same = cc
state_fault-none (some true) true h b same = ground (arith, same)
state_fault-none (some true) false h b same = cc
state_fault-none (some false) true h b same = cc
state_fault-none (some false) false h b same = ground (arith, same)

or_else-none :
    (first later : Option String) → or_else first later ≡ none → (first ≡ none) × (later ≡ none)
or_else-none none later h = (refl, h)
or_else-none (some text) later h = cc

judged_fault-none :
    (summary : String) (port : SimInterface) (fault : Option String)
    → (judged_fault summary port fault).passed ≡ true
    → fault ≡ none
judged_fault-none summary port none h = refl
judged_fault-none summary port (some fault) h = cc

pub judged_fault-IsConfigured :
    (address mask : Option String) (enabled : Option Bool) (summary : String) (port : SimInterface)
    → IsSound (IsConfigured address mask enabled port) (
        judged_fault summary port (
          or_else
            (address_fault address port)
            (or_else (mask_fault mask port) (state_fault enabled port.enabled))))
judged_fault-IsConfigured address mask enabled summary port p =
    let clean = judged_fault-none summary port _ p in
    let (addressed_ok, rest) = or_else-none (address_fault address port) _ clean in
    let (masked_ok, state_ok) = or_else-none (mask_fault mask port) _ rest in
    let (exact, any) = address_fault-none address port addressed_ok in
    record {
      has_address = exact;
      has_any = any;
      has_mask = mask_fault-none mask port masked_ok;
      has_state = state_fault-none enabled port.enabled state_ok;
    }

-- The search for an address in a network

pub Memᴰ-addressed :
    (port : SimInterface) (ports : List SimInterface)
    → Memᴰ port (addressed ports)
    → (ip : String) × (present port.ip ≡ some ip) × Memᴰ port ports
unfolding addressed
Memᴰ-addressed port [] m = absurd (Memᴰ.not-nil m)
Memᴰ-addressed port (first ∷ rest) m = elim (Option-cases (present first.ip)) [
  | inl e ↦
      let (ip, held, at) = Memᴰ-addressed port rest (rw (e, addressed) at m) in
      (ip, held, Memᴰ.tail at)
  | inr (ip, e) ↦
      let m' : Memᴰ port (first ∷ addressed rest) = rw (e, addressed) at m in
      elim (Memᴰ.cases_cons m') [
        | inl here ↦ (ip, ap (λ (p : SimInterface). present p.ip) here ∙ e, Memᴰ.head here)
        | inr there ↦
            let (ip', held, at) = Memᴰ-addressed port rest there in (ip', held, Memᴰ.tail at)
      ]
]

module _ (n : Ipv4Network) where
  pub first_inside-Ends : (ports : List SimInterface) → Ends (first_inside n ports)
  unfolding first_inside
  first_inside-Ends [] = tt
  first_inside-Ends (port ∷ rest) =
      let later = first_inside-Ends rest in
      Ends-bind (parse_address (or_word "" port.ip)) _ (parse_address-Ends (or_word "" port.ip))
        (λ a. Ends-if (contains n a) _ _ tt later)

  pub first_inside-found :
      (ports : List SimInterface) (port : SimInterface)
      → first_inside n ports ≡ ok (some port)
      → (a : ℕ) × (parse_address (or_word "" port.ip) ≡ ok a)
        × (contains n a ≡ true)
        × Memᴰ port ports
  unfolding first_inside
  first_inside-found [] port h = cc
  first_inside-found (first ∷ rest) port h =
      let (a, reads, g) = >>=-eq-ok (parse_address (or_word "" first.ip)) _ h in
      elim (Bool-cases (contains n a)) [
        | inl e ↦
            let found : ok (some first) ≡ ok (some port) = rw e at g in
            let same : first ≡ port = ground (arith, found) in
            subst
              (λ p.
                (a : ℕ) × (parse_address (or_word "" p.ip) ≡ ok a)
                × (contains n a ≡ true)
                × Memᴰ p (first ∷ rest))
              same (a, reads, e, Memᴰ.head refl)
        | inr e ↦
            let (b, held, inside, at) = first_inside-found rest port (rw e at g) in
            (b, held, inside, Memᴰ.tail at)
      ]
