-- ===== src/Lab/Graded.antt =====
-- What a graded run promises: `LabGrader.grade`.
use networkbasicswebsite.Prelude.{
  ◌≡◌, ℕ, ◌+◌, ◌∙◌, inl, inr, Bool-cases, arith, if◌then◌else◌, ◌≤◌, refl, String, true, List, [],
  ◌∷◌, ok, >>=-eq-ok,
}
use networkbasicswebsite.Topology.{TopologyDocument}
use networkbasicswebsite.Simulation.Network.{Library, Network, build_network}
use networkbasicswebsite.Simulation.Forwarding.Safe.{IsSafe, pure-IsSafe, bind-IsSafe}
use networkbasicswebsite.Simulation.Forwarding.Promises.{start, start-IsValid, Post-result}
use networkbasicswebsite.Lab.Rules.{Rule, LabObjective, CheckResult}
use networkbasicswebsite.Lab.Find.{Verdict}
use networkbasicswebsite.Lab.Grade.{
  GradeReport, check_result, handle, check_rule, check_rules, earned_points, possible_points,
  all_passed, grade, grade_document,
}
use networkbasicswebsite.Lab.Demands.{Demands}
use networkbasicswebsite.Lab.Judged.{IsSound}
use networkbasicswebsite.Lab.Handled.{handle-IsSafe}
use networkbasicswebsite.Lab.Score.{
  IsScored, AllScored, AllRolled, earned_points-le, earned_points-full, roll_up_lem,
}

-- The points of the rules.
abbrev pub rule_points : List Rule → ℕ
rule_points [] = 0
rule_points (rule ∷ rest) = rule.points + rule_points rest

-- The points of those rules of which the result in the same place is a pass.
abbrev pub won_points : List Rule → List CheckResult → ℕ
won_points (rule ∷ rules) (result ∷ results) =
    let later = won_points rules results in if result.passed then rule.points + later else later
won_points _ _ = 0

module _ (lower : String → String) (order : List String → List String) (net : Network) where
  -- The result is of the rule, has the points that it earns, and a pass means what the rule demands.
  pub record IsChecked (rule : Rule) (result : CheckResult) : Type 0 where
    pub id : result.rule_id ≡ rule.id
    pub objective : result.objective_id ≡ rule.objective_id
    pub possible : result.points_possible ≡ rule.points
    pub scored : IsScored result
    pub demanded : result.passed ≡ true → Demands lower order net rule.check

  -- One result for each rule, in their order.
  abbrev pub AllChecked : List Rule → List CheckResult → Type 0
  AllChecked [] [] = Unit
  AllChecked (rule ∷ rules) (result ∷ results) = IsChecked rule result × AllChecked rules results
  AllChecked _ _ = ⊥

  pub AllChecked-AllScored :
      (rules : List Rule) (results : List CheckResult)
      → AllChecked rules results
      → AllScored results
  AllChecked-AllScored [] [] h = tt
  AllChecked-AllScored (rule ∷ rules) (result ∷ results) h =
      (h.0.scored, AllChecked-AllScored rules results h.1)
  AllChecked-AllScored [] (result ∷ results) h = absurd h
  AllChecked-AllScored (rule ∷ rules) [] h = absurd h

  -- What the points of a report come to, by the rules.
  checked_points :
      (rules : List Rule) (results : List CheckResult)
      → AllChecked rules results
      → (possible_points results ≡ rule_points rules)
        × (earned_points results ≡ won_points rules results)
  unfolding earned_points possible_points
  checked_points [] [] h = (refl, refl)
  checked_points (rule ∷ rules) (result ∷ results) h =
      let (possible, earned) = checked_points rules results h.1 in
      (
        omega (arith, possible, h.0.possible),
        elim (Bool-cases result.passed) [
          | inl e ↦ rw e (omega (arith, earned, h.0.possible, h.0.scored.0 e))
          | inr e ↦ rw e (omega (arith, earned, h.0.scored.1 e))
        ],
      )
  checked_points [] (result ∷ results) h = absurd h
  checked_points (rule ∷ rules) [] h = absurd h

  check_result-IsScored : (rule : Rule) (verdict : Verdict) → IsScored (check_result rule verdict)
  unfolding check_result
  check_result-IsScored rule verdict = (λ p. rw p refl, λ p. rw p refl)

  check_result-IsChecked :
      (rule : Rule) (verdict : Verdict)
      → IsSound (Demands lower order net rule.check) verdict
      → IsChecked rule (check_result rule verdict)
  unfolding check_result
  check_result-IsChecked rule verdict h = record {
    id = refl;
    objective = refl;
    possible = refl;
    scored = check_result-IsScored rule verdict;
    demanded = h;
  }

  check_rule-IsSafe : (rule : Rule) → IsSafe net (IsChecked rule) (check_rule lower order net rule)
  unfolding check_rule
  check_rule-IsSafe rule =
      bind-IsSafe net (IsSound (Demands lower order net rule.check)) (IsChecked rule)
        (handle lower order net rule.check) _ (handle-IsSafe lower order net rule.check)
        (λ verdict h. pure-IsSafe net (IsChecked rule) _ (check_result-IsChecked rule verdict h))

  check_rules-IsSafe :
      (rules : List Rule) → IsSafe net (AllChecked rules) (check_rules lower order net rules)
  unfolding check_rules
  check_rules-IsSafe [] = pure-IsSafe net (AllChecked []) [] tt
  check_rules-IsSafe (rule ∷ rest) =
      bind-IsSafe net (IsChecked rule) (AllChecked (rule ∷ rest)) (check_rule lower order net rule)
        _ (check_rule-IsSafe rule)
        (λ result checked.
          bind-IsSafe net (AllChecked rest) (AllChecked (rule ∷ rest))
            (check_rules lower order net rest) _ (check_rules-IsSafe rest)
            (λ results all.
              pure-IsSafe net (AllChecked (rule ∷ rest)) (result ∷ results) (checked, all)))

  -- The report of a run: sound results, the roll-up of them, and their points.
  pub record IsGraded (rules : List Rule) (objectives : List LabObjective) (report : GradeReport)
      : Type 0 where
    pub checked : AllChecked rules report.results
    pub rolled : AllRolled report.results objectives report.objectives
    pub earned : report.points_earned ≡ earned_points report.results
    pub possible : report.points_possible ≡ possible_points report.results

  pub grade-IsSafe :
      (rules : List Rule) (objectives : List LabObjective)
      → IsSafe net (IsGraded rules objectives) (grade lower order net rules objectives)
  unfolding grade
  grade-IsSafe rules objectives =
      bind-IsSafe net (AllChecked rules) (IsGraded rules objectives)
        (check_rules lower order net rules) _ (check_rules-IsSafe rules)
        (λ results all. pure-IsSafe net (IsGraded rules objectives) _ (record {
          checked = all;
          rolled = roll_up_lem results objectives;
          earned = refl;
          possible = refl;
        }))

module _ (lib : Library) (lower : String → String) (order : List String → List String)
    (document : TopologyDocument) (rules : List Rule) (objectives : List LabObjective) where
  -- A report of a document is sound for the network that is built of it: there is a result for each
  -- rule, in their order, and a passed rule means what `Demands` says of it. For a traffic rule that
  -- is a run of its exchange on a new forwarder that was a success, and whose deliveries, name or
  -- lease are what the exchange promises, or for `no_ping` a run that failed; for any other rule, the
  -- setting of the document that it asks for. Each objective is passed exactly if the rules tied to it
  -- are, and has their points; and the report's points are the sums of its results'.
  pub grade_document-IsGraded :
      (report : GradeReport)
      → grade_document lib lower order document rules objectives ≡ ok report
      → (net : Network) × (build_network lib document ≡ ok net)
        × IsGraded lower order net rules objectives report
  unfolding grade_document
  grade_document-IsGraded report h =
      let (net, built, g) = >>=-eq-ok (build_network lib document) _ h in
      let run = grade lower order net rules objectives in
      (
        net,
        built,
        Post-result net (IsGraded lower order net rules objectives) (run start).0 (run start).1
            report (grade-IsSafe lower order net rules objectives start (start-IsValid net)) g,
      )

  -- The points that a report says are possible are those of its rules, and those it says were earned
  -- are those of the rules whose result is a pass; these are at most all, and are all of them if every
  -- rule passed.
  pub grade_document-points :
      (report : GradeReport)
      → grade_document lib lower order document rules objectives ≡ ok report
      → (report.points_possible ≡ rule_points rules)
        × (report.points_earned ≡ won_points rules report.results)
        × (report.points_earned ≤ rule_points rules)
        × (all_passed report.results ≡ true → report.points_earned ≡ rule_points rules)
  grade_document-points report h =
      let (net, _, graded) = grade_document-IsGraded report h in
      let scored = AllChecked-AllScored lower order net rules report.results graded.checked in
      let sums = checked_points lower order net rules report.results graded.checked in
      (
        graded.possible ∙ sums.0,
        graded.earned ∙ sums.1,
        omega (arith, graded.earned, sums.0, earned_points-le report.results scored),
        λ p. graded.earned ∙ earned_points-full report.results scored p ∙ sums.0,
      )
