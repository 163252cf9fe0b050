-- ===== src/Lab/Score.antt =====
-- The points of a graded run and its roll-up to objectives.
use mathlib.Core.List.Memᴰ
use networkbasicswebsite.Prelude.{
  ◌≡◌, ◌≤◌, ◌↔◌, refl, ap, sym, ◌∙◌, inl, inr, true, false, List, [], ◌∷◌, some, arith, Memᴰ,
  Memᴰ-keep, string_eq, option_eq, keep, Bool-cases,
}
use networkbasicswebsite.Lab.Rules.{LabObjective, CheckResult, ObjectiveResult}
use networkbasicswebsite.Lab.Grade.{
  earned_points, possible_points, all_passed, belongs, objective_result, roll_up,
}

-- A passed rule has its points, and a failed one none.
abbrev pub IsScored : CheckResult → Type 0
IsScored result =
    (result.passed ≡ true → result.points_earned ≡ result.points_possible)
    × (result.passed ≡ false → result.points_earned ≡ 0)

abbrev pub AllScored : List CheckResult → Type 0
AllScored [] = Unit
AllScored (result ∷ rest) = IsScored result × AllScored rest

scored-le : (result : CheckResult) → IsScored result → result.points_earned ≤ result.points_possible
scored-le result h = elim (Bool-cases result.passed) [
  | inl e ↦ omega (arith, h.0 e)
  | inr e ↦ omega (arith, h.1 e)
]

pub earned_points-le :
    (results : List CheckResult)
    → AllScored results
    → earned_points results ≤ possible_points results
unfolding earned_points possible_points
earned_points-le [] h = omega arith
earned_points-le (result ∷ rest) h = omega (arith, scored-le result h.0, earned_points-le rest h.1)

pub earned_points-full :
    (results : List CheckResult)
    → AllScored results
    → all_passed results ≡ true
    → earned_points results ≡ possible_points results
unfolding earned_points possible_points all_passed
earned_points-full [] h p = refl
earned_points-full (result ∷ rest) h p =
    let first : result.passed ≡ true = ground (arith, p) in
    let others : all_passed rest ≡ true = ground (arith, p) in
    omega (arith, h.0.0 first, earned_points-full rest h.1 others)

all_passed_iff :
    (results : List CheckResult)
    → (all_passed results ≡ true)
      ↔ ((result : CheckResult) → Memᴰ result results → result.passed ≡ true)
unfolding all_passed
all_passed_iff [] = (λ h result m. absurd (Memᴰ.not-nil m), λ h. refl)
all_passed_iff (first ∷ rest) =
    let (to, from) = all_passed_iff rest in
    (
      λ h result m.
          let passed : first.passed ≡ true = ground (arith, h) in
          let others : all_passed rest ≡ true = ground (arith, h) in
          elim (Memᴰ.cases_cons m) [
            | inl here ↦ ap (λ (r : CheckResult). r.passed) here ∙ passed
            | inr there ↦ to others result there
          ],
      λ h.
          let passed : first.passed ≡ true = h first (Memᴰ.head refl) in
          let others : all_passed rest ≡ true = from (λ result m. h result (Memᴰ.tail m)) in
          ground (arith, passed, others),
    )

-- What the checklist shows of an objective: it is passed exactly if every rule tied to it is, and
-- its points are those of these rules.
pub record IsRolled (results : List CheckResult) (objective : LabObjective)
    (rolled : ObjectiveResult) : Type 0 where
  pub same : rolled.objective_id ≡ objective.id
  pub passes : (rolled.passed ≡ true) ↔ (
      (result : CheckResult)
      → Memᴰ result results
      → result.objective_id ≡ some objective.id
      → result.passed ≡ true)
  pub earned : rolled.points_earned ≡ earned_points (keep (belongs objective.id) results)
  pub possible : rolled.points_possible ≡ possible_points (keep (belongs objective.id) results)

abbrev pub AllRolled : List CheckResult → List LabObjective → List ObjectiveResult → Type 0
AllRolled results [] [] = Unit
AllRolled results (objective ∷ rest) (rolled ∷ more) =
    IsRolled results objective rolled × AllRolled results rest more
AllRolled results _ _ = ⊥

objective_result-fields :
    (objective : LabObjective) (related : List CheckResult)
    → ((objective_result objective related).objective_id ≡ objective.id)
      × ((objective_result objective related).passed ≡ all_passed related)
      × ((objective_result objective related).points_earned ≡ earned_points related)
      × ((objective_result objective related).points_possible ≡ possible_points related)
unfolding objective_result all_passed earned_points possible_points
objective_result-fields objective [] = (refl, refl, refl, refl)
objective_result-fields objective (result ∷ rest) = (refl, refl, refl, refl)

objective_result-IsRolled :
    (results : List CheckResult) (objective : LabObjective)
    → IsRolled results objective (objective_result objective (keep (belongs objective.id) results))
objective_result-IsRolled results objective =
    let related = keep (belongs objective.id) results in
    let (same, passed, earned, possible) = objective_result-fields objective related in
    let (to, from) = all_passed_iff related in
    record {
      same = same;
      passes = (
        λ h result m tied. to (sym passed ∙ h) result (
            (Memᴰ-keep (belongs objective.id) result results).1
              (m, (option_eq.eqb_iff result.objective_id (some objective.id)).1 tied)),
        λ h.
            passed
            ∙ from (λ result m.
              let (at, tied) = (Memᴰ-keep (belongs objective.id) result results).0 m in
              h result at ((option_eq.eqb_iff result.objective_id (some objective.id)).0 tied)),
      );
      earned = earned;
      possible = possible;
    }

-- The roll-up has an entry for each objective, in their order; it is passed exactly if every result
-- tied to that objective is, and its points are those of these results.
pub roll_up_lem :
    (results : List CheckResult) (objectives : List LabObjective)
    → AllRolled results objectives (roll_up results objectives)
unfolding roll_up
roll_up_lem results [] = tt
roll_up_lem results (objective ∷ rest) =
    (objective_result-IsRolled results objective, roll_up_lem results rest)
