-- ===== src/Cli/Resolved.antt =====
-- What `resolve` answers to an abbreviation.
use mathlib.Core.List.Memᴰ
use networkbasicswebsite.Prelude.{
  ◌≡◌, ◌≢◌, ◌≤◌, ◌⊎◌, refl, ap, sym, ◌∙◌, subst, inl, inr, String, Bool, true, false, List, [], ◌∷◌,
  Option, none, some, arith, ◌==◌, string_eq, keep, length, Bool-cases, Option-cases, Memᴰ,
  Memᴰ-keep,
}
use networkbasicswebsite.Cli.Abbreviations.{matches, exact_match, of_hits, resolve}

module _ (lower : String → String) (token : String) (candidates : List String) where
  -- No candidate is the token but for case.
  abbrev pub NoneExact : Type 0
  NoneExact = (c : String) → Memᴰ c candidates → lower c ≢ lower token

  -- The only candidate that the token abbreviates.
  pub record IsOnly (hit : String) : Type 0 where
    pub candidate : Memᴰ hit candidates
    pub abbreviated : matches lower token hit ≡ true
    pub only : (c : String) → Memᴰ c candidates → matches lower token c ≡ true → c ≡ hit

  -- An exact candidate is answered; else the only abbreviated one; else nothing, which is marked as
  -- ambiguous if several are abbreviated.
  abbrev pub Resolves : Option String × Bool → Type 0
  Resolves (some c, ambiguous) =
      (ambiguous ≡ false) × ((Memᴰ c candidates × (lower c ≡ lower token)) ⊎ (NoneExact × IsOnly c))
  Resolves (none, true) = NoneExact × (2 ≤ length (keep (matches lower token) candidates))
  Resolves (none, false) =
      NoneExact × ((c : String) → Memᴰ c candidates → matches lower token c ≡ false)

exact_match-found :
    (lower : String → String) (token : String) (candidates : List String) (c : String)
    → exact_match lower token candidates ≡ some c
    → Memᴰ c candidates × (lower c ≡ lower token)
unfolding exact_match
exact_match-found lower token [] c h = cc
exact_match-found lower token (first ∷ rest) c h = elim (Bool-cases (lower first == lower token)) [
  | inl e ↦
      let found : some first ≡ some c = rw (e, exact_match) at h in
      let same : first ≡ c = ground (arith, found) in
      let equal : lower first ≡ lower token = (string_eq.eqb_iff _ _).0 e in
      (Memᴰ.head (sym same), ap lower (sym same) ∙ equal)
  | inr e ↦
      let (at, equal) = exact_match-found lower token rest c (rw (e, exact_match) at h) in
      (Memᴰ.tail at, equal)
]

exact_match-none :
    (lower : String → String) (token : String) (candidates : List String)
    → exact_match lower token candidates ≡ none
    → NoneExact lower token candidates
unfolding exact_match
exact_match-none lower token [] h c m same = Memᴰ.not-nil m
exact_match-none lower token (first ∷ rest) h c m same =
    elim (Bool-cases (lower first == lower token)) [
      | inl e ↦ ground (arith, rw (e, exact_match) at h)
      | inr e ↦ elim (Memᴰ.cases_cons m) [
        | inl here ↦
            let equal : lower first ≡ lower token = ap lower (sym here) ∙ same in
            ground (arith, e, (string_eq.eqb_iff (lower first) (lower token)).1 equal)
        | inr there ↦ exact_match-none lower token rest (rw (e, exact_match) at h) c there same
      ]
    ]

module _ (lower : String → String) (token : String) (candidates : List String) where
  of_hits-Resolves :
      (hits : List String)
      → NoneExact lower token candidates
      → keep (matches lower token) candidates ≡ hits
      → Resolves lower token candidates (of_hits hits)
  of_hits-Resolves [] none_exact e = (
    none_exact,
    λ c m. elim (Bool-cases (matches lower token c)) [
      | inr misses ↦ misses
      | inl hit ↦
          let kept = (Memᴰ-keep (matches lower token) c candidates).1 (m, hit) in
          absurd (Memᴰ.not-nil (subst (Memᴰ c) e kept))
    ],
  )
  of_hits-Resolves (hit ∷ []) none_exact e =
      let here = subst (Memᴰ hit) (sym e) (Memᴰ.head refl) in
      let (at, abbreviated) = (Memᴰ-keep (matches lower token) hit candidates).0 here in
      (
        refl,
        inr (
          none_exact,
          record {
            candidate = at;
            abbreviated = abbreviated;
            only = λ c m hits_c.
                let kept = (Memᴰ-keep (matches lower token) c candidates).1 (m, hits_c) in
                elim (Memᴰ.cases_cons (subst (Memᴰ c) e kept)) [
                  | inl same ↦ same
                  | inr there ↦ absurd (Memᴰ.not-nil there)
                ];
          },
        ),
      )
  of_hits-Resolves (hit ∷ next ∷ rest) none_exact e = (none_exact, rw e (omega arith))

  -- `resolve` answers an exact candidate, but for case, whatever else it abbreviates; without one,
  -- the only candidate that the token abbreviates; without one, nothing, and it says that the token
  -- is ambiguous exactly if it abbreviates at least two.
  pub resolve-Resolves : Resolves lower token candidates (resolve lower token candidates)
  unfolding resolve
  resolve-Resolves = elim (Option-cases (exact_match lower token candidates)) [
    | inr (c, e) ↦ rw (e, resolve) (refl, inl (exact_match-found lower token candidates c e))
    | inl e ↦
        rw (e, resolve)
          (of_hits-Resolves (keep (matches lower token) candidates)
            (exact_match-none lower token candidates e) refl)
  ]
