-- ===== src/Prelude/Lists.antt =====
-- Lists under native lengths, with Boolean membership and its law.
use Prim.Native.Nat.{ℕ, suc, ◌+◌, ◌≤◌}
use mathlib.Core.Path.{◌≡◌, refl}
use mathlib.Core.Logic.{◌↔◌, ◌⊎◌, inl, inr, ⊎_elim}
use mathlib.Core.Bool.{Bool, true, false, ◌||◌}
use mathlib.Core.List.{List, [], ◌∷◌, ◌++◌, Memᴰ}
use mathlib.Core.List.Memᴰ
use native.Mathlib.Omega.{arith}
use networkbasicswebsite.Prelude.Tests.{if◌then◌else◌}
use networkbasicswebsite.Prelude.Equality.{Eq, ◌==◌}

module _ {ℓ} {A : Type ℓ} where
  abbrev pub length : List A → ℕ
  length [] = 0
  length (x ∷ xs) = suc (length xs)

  -- `[x for x in xs if p(x)]`
  abbrev pub keep : (A → Bool) → List A → List A
  keep p [] = []
  keep p (x ∷ xs) = if p x then x ∷ keep p xs else keep p xs

  pub length-append : (xs ys : List A) → length (xs ++ ys) ≡ length xs + length ys
  length-append [] ys = omega arith
  length-append (x ∷ xs) ys = omega (arith, length-append xs ys)

  pub length-keep : (p : A → Bool) (xs : List A) → length (keep p xs) ≤ length xs
  length-keep p [] = omega arith
  length-keep p (x ∷ xs) = ground (arith, length-keep p xs)

  pub List-cases : (xs : List A) → (xs ≡ []) ⊎ ((x : A) × (rest : List A) × (xs ≡ x ∷ rest))
  List-cases [] = inl refl
  List-cases (x ∷ xs) = inr (x, xs, refl)

  pub Memᴰ-cons : (a x : A) (xs : List A) → Memᴰ a (x ∷ xs) ↔ ((a ≡ x) ⊎ Memᴰ a xs)
  Memᴰ-cons a x xs = (Memᴰ.cases_cons, ⊎_elim Memᴰ.head Memᴰ.tail)

  pub Memᴰ-append : (a : A) (xs ys : List A) → Memᴰ a (xs ++ ys) ↔ (Memᴰ a xs ⊎ Memᴰ a ys)
  Memᴰ-append a xs ys =
      (λ m. Memᴰ.append_cases xs m, ⊎_elim (Memᴰ.append_left ys) (λ m. Memᴰ.append_right xs m))

  pub Memᴰ-keep :
      (p : A → Bool) (a : A) (xs : List A) → Memᴰ a (keep p xs) ↔ (Memᴰ a xs × (p a ≡ true))
  Memᴰ-keep p a [] = (λ m. absurd (Memᴰ.not-nil m), λ h. absurd (Memᴰ.not-nil h.0))
  Memᴰ-keep p a (x ∷ xs) =
      ground (arith, Memᴰ-keep p a xs, Memᴰ-cons a x xs, Memᴰ-cons a x (keep p xs))

module _ {ℓ} {A : Type ℓ} ⦃e : Eq A⦄ where
  -- `a in xs`
  abbrev pub elem : A → List A → Bool
  elem a [] = false
  elem a (x ∷ xs) = a == x || elem a xs

  pub elem_iff : (a : A) (xs : List A) → (elem a xs ≡ true) ↔ Memᴰ a xs
  elem_iff a [] = (λ h. cc, λ m. absurd (Memᴰ.not-nil m))
  elem_iff a (x ∷ xs) = ground (arith, e.eqb_iff a x, elem_iff a xs, Memᴰ-cons a x xs)

  pub elem-head : (a : A) (xs : List A) → elem a (a ∷ xs) ≡ true
  elem-head a xs = ground (arith, e.eqb_iff a a)

  pub elem-cons : (a x : A) (xs : List A) → elem a xs ≡ true → elem a (x ∷ xs) ≡ true
  elem-cons a x xs h = ground arith

  pub elem-append : (a : A) (xs ys : List A) → elem a (xs ++ ys) ≡ (elem a xs || elem a ys)
  elem-append a [] ys = refl
  elem-append a (x ∷ xs) ys = ground (arith, elem-append a xs ys)

  pub elem-here : (a x : A) (xs : List A) → a ≡ x → elem a (x ∷ xs) ≡ true
  elem-here a x xs h = ground (arith, e.eqb_iff a x)
