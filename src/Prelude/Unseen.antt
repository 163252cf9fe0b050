-- ===== src/Prelude/Unseen.antt =====
-- How much of a finite universe a search has not seen: the measure of the program's worklist loops.
use Prim.Native.Nat.{ℕ, suc, ◌≤◌}
use mathlib.Core.Path.{◌≡◌}
use mathlib.Core.Bool.{true, false, not}
use mathlib.Core.List.{List, [], ◌∷◌}
use native.Mathlib.Omega.{arith}
use networkbasicswebsite.Prelude.Equality.{Eq}
use networkbasicswebsite.Prelude.Lists.{length, keep, elem, elem-head}

module _ {ℓ} {A : Type ℓ} ⦃e : Eq A⦄ where
  -- How many entries of `universe` are not in `seen`.
  abbrev pub unseen : List A → List A → ℕ
  unseen universe seen = length (keep (λ q. not (elem q seen)) universe)

  pub unseen-cons-le :
      (universe seen : List A) (p : A) → unseen universe (p ∷ seen) ≤ unseen universe seen
  unseen-cons-le [] seen p = omega arith
  unseen-cons-le (q ∷ universe) seen p = ground (arith, unseen-cons-le universe seen p)

  pub unseen-cons-lt :
      (universe seen : List A) (p : A)
      → elem p universe ≡ true
      → elem p seen ≡ false
      → suc (unseen universe (p ∷ seen)) ≤ unseen universe seen
  unseen-cons-lt [] seen p h new = cc
  unseen-cons-lt (q ∷ universe) seen p h new = ground (
    arith,
    unseen-cons-lt universe seen p,
    unseen-cons-le universe seen p,
    elem-head p seen,
    e.eqb_iff p q,
    e.eqb_iff q p,
  )
