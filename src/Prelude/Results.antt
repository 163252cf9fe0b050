-- ===== src/Prelude/Results.antt =====
-- Functions that may raise. `diverged` is no exception of the program: it says that the fuel of a
-- loop ran out.
use Prim.Native.String.{String}
use mathlib.Core.Path.{◌≡◌, refl}
use mathlib.Core.Bool.{Bool, true, false}
use networkbasicswebsite.Prelude.Tests.{if◌then◌else◌}
use mathlib.Core.Option.{Option, none, some}
use mathlib.Core.Logic.{◌⊎◌, inl, inr}

pub data Exn : Type 0 where
  -- ValueError and its subclasses AddressValueError and NetmaskValueError
  value_error : Exn
  -- `d[k]` on a missing key
  key_error : Exn
  -- app.core.exceptions.ValidationError, with its message
  validation_error : String → Exn
  diverged : Exn

pub data Result {ℓ} (A : Type ℓ) : Type ℓ where
  ok : A → Result A
  raise : Exn → Result A

-- What follows a step that raised is not run.
infixl 5 ◌>>=◌
abbrev pub ◌>>=◌ {ℓ ℓ'} : {T : Type ℓ} {V : Type ℓ'} → Result T → (T → Result V) → Result V
raise exn >>= next = raise exn
ok value >>= next = next value

-- `d[k]`
abbrev pub required {ℓ} : {A : Type ℓ} → Option A → Result A
required none = raise key_error
required (some a) = ok a

pub >>=-eq-ok {ℓ ℓ'} :
    {T : Type ℓ} {V : Type ℓ'} (step : Result T) (next : T → Result V) {v : V}
    → (step >>= next) ≡ ok v
    → (t : T) × (step ≡ ok t) × (next t ≡ ok v)
>>=-eq-ok (raise exn) next h = cc
>>=-eq-ok (ok t) next h = (t, refl, h)

pub Result-cases {ℓ} :
    {A : Type ℓ} (r : Result A) → ((a : A) × (r ≡ ok a)) ⊎ ((e : Exn) × (r ≡ raise e))
Result-cases (ok a) = inl (a, refl)
Result-cases (raise e) = inr (e, refl)

-- The fuel of no loop ran out.
abbrev pub Ends {ℓ} : {A : Type ℓ} → Result A → Type 0
Ends (ok a) = Unit
Ends (raise value_error) = Unit
Ends (raise key_error) = Unit
Ends (raise (validation_error message)) = Unit
Ends (raise diverged) = ⊥

pub Ends-bind {ℓ κ} :
    {A : Type ℓ} {B : Type κ} (m : Result A) (f : A → Result B)
    → Ends m
    → ((a : A) → Ends (f a))
    → Ends (m >>= f)
Ends-bind (ok a) f h k = k a
Ends-bind (raise value_error) f h k = tt
Ends-bind (raise key_error) f h k = tt
Ends-bind (raise (validation_error message)) f h k = tt
Ends-bind (raise diverged) f h k = h

pub Ends-required {ℓ} : {A : Type ℓ} (o : Option A) → Ends (required o)
Ends-required none = tt
Ends-required (some a) = tt

pub Ends-of_ne {ℓ} : {A : Type ℓ} (r : Result A) → (r ≡ raise diverged → ⊥) → Ends r
Ends-of_ne (ok a) h = tt
Ends-of_ne (raise value_error) h = tt
Ends-of_ne (raise key_error) h = tt
Ends-of_ne (raise (validation_error message)) h = tt
Ends-of_ne (raise diverged) h = h refl

pub ne_of_Ends {ℓ} : {A : Type ℓ} (r : Result A) → Ends r → r ≡ raise diverged → ⊥
ne_of_Ends (raise diverged) h e = h
ne_of_Ends (ok a) h e = cc
ne_of_Ends (raise value_error) h e = cc
ne_of_Ends (raise key_error) h e = cc
ne_of_Ends (raise (validation_error message)) h e = cc

pub Ends-option {ℓ κ} :
    {A : Type ℓ} {B : Type κ} (o : Option A) (x : Result B) (f : A → Result B)
    → Ends x
    → ((a : A) → Ends (f a))
    → Ends (elim o [ none ↦ x | some a ↦ f a ])
Ends-option none x f h k = h
Ends-option (some a) x f h k = k a

pub Ends-bool {ℓ} :
    {B : Type ℓ} (b : Bool) (x y : Result B)
    → Ends x
    → Ends y
    → Ends (elim b [ true ↦ x | false ↦ y ])
Ends-bool true x y h k = h
Ends-bool false x y h k = k

pub Ends-if {ℓ} :
    {B : Type ℓ} (b : Bool) (x y : Result B) → Ends x → Ends y → Ends (if b then x else y)
Ends-if true x y h k = h
Ends-if false x y h k = k
