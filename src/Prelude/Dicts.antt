-- ===== src/Prelude/Dicts.antt =====
-- Python's `dict` as an association list in insertion order: a second write to a key keeps its place.
use mathlib.Core.Path.{◌≡◌, refl}
use mathlib.Core.Option.{Option, none, some}
use mathlib.Core.List.{List, [], ◌∷◌, map, Memᴰ}
use native.Mathlib.Omega.{arith}
use networkbasicswebsite.Prelude.Tests.{if◌then◌else◌}
use networkbasicswebsite.Prelude.Equality.{Eq, ◌==◌}
use networkbasicswebsite.Prelude.Lists.{Memᴰ-cons}

abbrev pub Dict {ℓ κ} : Type ℓ → Type κ → Type (ℓ ⊔ κ)
Dict K V = List (K × V)

abbrev pub values {ℓ κ} : {K : Type ℓ} {V : Type κ} → Dict K V → List V
values d = map (λ p. p.1) d

abbrev pub keys {ℓ κ} : {K : Type ℓ} {V : Type κ} → Dict K V → List K
keys d = map (λ p. p.0) d

module _ {ℓ κ} {K : Type ℓ} {V : Type κ} ⦃e : Eq K⦄ where
  -- `d.get(k)`
  abbrev pub lookup : K → Dict K V → Option V
  lookup k [] = none
  lookup k ((j, v) ∷ d) = if j == k then some v else lookup k d

  -- `d[k] = v`
  abbrev pub insert : K → V → Dict K V → Dict K V
  insert k v [] = (k, v) ∷ []
  insert k v ((j, w) ∷ d) = if j == k then (j, v) ∷ d else (j, w) ∷ insert k v d

  pub lookup-insert :
      (k j : K) (v : V) (d : Dict K V)
      → lookup j (insert k v d) ≡ (if k == j then some v else lookup j d)
  lookup-insert k j v [] = refl
  lookup-insert k j v ((i, w) ∷ d) =
      ground (arith, e.eqb_iff k j, e.eqb_iff i k, e.eqb_iff i j, lookup-insert k j v d)

  pub Memᴰ_of_lookup : (k : K) (v : V) (d : Dict K V) → lookup k d ≡ some v → Memᴰ (k, v) d
  Memᴰ_of_lookup k v [] h = cc
  Memᴰ_of_lookup k v ((j, w) ∷ d) h =
      ground (arith, e.eqb_iff j k, Memᴰ_of_lookup k v d, Memᴰ-cons (k, v) (j, w) d)
