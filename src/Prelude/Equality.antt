-- ===== src/Prelude/Equality.antt =====
-- Python's `==` on the values that the program compares, as an interface with its law.
use Prim.Native.Nat.{ℕ}
use Prim.Native.String.{String}
use mathlib.Core.Path.{◌≡◌, refl}
use mathlib.Core.Logic.{◌↔◌}
use mathlib.Core.Bool.{Bool, true, false, ◌&&◌}
use mathlib.Core.Option.{Option, none, some}
use native.Mathlib.Omega.{arith}
use text.Mathlib.Text.{◌==◌ as str_eq}
use text.Mathlib.TextEquality.{eq_iff}
use networkbasicswebsite.Prelude.Tests.{nat_beq, nat_beq_iff}

pub record Eq {ℓ} (T : Type ℓ) : Type ℓ where
  pub eqb : T → T → Bool
  pub eqb_iff : (x y : T) → (eqb x y ≡ true) ↔ (x ≡ y)

-- Texts, by their characters.
instance abbrev pub string_eq : Eq String
string_eq = record { eqb = str_eq; eqb_iff = eq_iff }

module _ {ℓ κ} {A : Type ℓ} {B : Type κ} ⦃e : Eq A⦄ ⦃f : Eq B⦄ where
  abbrev pub pair_beq : A × B → A × B → Bool
  pair_beq (a, b) (c, d) = e.eqb a c && f.eqb b d

  pub pair_beq_iff : (p q : A × B) → (pair_beq p q ≡ true) ↔ (p ≡ q)
  pair_beq_iff (a, b) (c, d) = ground (arith, e.eqb_iff a c, f.eqb_iff b d)

  instance abbrev pub pair_eq : Eq (A × B)
  pair_eq = record { eqb = pair_beq; eqb_iff = pair_beq_iff }

module _ {ℓ} {A : Type ℓ} ⦃e : Eq A⦄ where
  abbrev pub option_beq : Option A → Option A → Bool
  option_beq none none = true
  option_beq (some a) (some b) = e.eqb a b
  option_beq _ _ = false

  pub option_beq_iff : (p q : Option A) → (option_beq p q ≡ true) ↔ (p ≡ q)
  option_beq_iff none none = ground arith
  option_beq_iff (some a) (some b) = ground (arith, e.eqb_iff a b)
  option_beq_iff _ _ = ground arith

  instance abbrev pub option_eq : Eq (Option A)
  option_eq = record { eqb = option_beq; eqb_iff = option_beq_iff }

instance abbrev pub nat_eq : Eq ℕ
nat_eq = record { eqb = nat_beq; eqb_iff = nat_beq_iff }

-- Python's operator, on whatever has an instance.
abbrev pub ◌==◌ {ℓ} : {T : Type ℓ} ⦃eq : Eq T⦄ → T → T → Bool
◌==◌ ⦃eq⦄ x y = eq.eqb x y

infix 50 ◌==◌
-- The equality of an enumeration, from its decision procedure.
abbrev pub decided {ℓ} : {P : Type ℓ} → Dec P → Bool
decided (yes p) = true
decided (no n) = false

pub decided_iff {ℓ} : {P : Type ℓ} (d : Dec P) → (decided d ≡ true) ↔ P
decided_iff (yes p) = (λ _. p, λ _. refl)
decided_iff (no n) = (λ h. cc, λ p. absurd (n p))

abbrev pub discrete_beq {ℓ} : {A : Type ℓ} → Discrete A → A → A → Bool
discrete_beq d a b = decided (d a b)

pub discrete_beq_iff {ℓ} :
    {A : Type ℓ} (d : Discrete A) (a b : A) → (discrete_beq d a b ≡ true) ↔ (a ≡ b)
discrete_beq_iff d a b = decided_iff (d a b)

abbrev pub discrete_eq {ℓ} : {A : Type ℓ} → Discrete A → Eq A
discrete_eq d = record { eqb = discrete_beq d; eqb_iff = discrete_beq_iff d }
