-- ===== src/Lab/Grade.antt =====
-- `LabGrader`: one check for each rule, the points, and the roll-up to objectives.
use networkbasicswebsite.Prelude
use networkbasicswebsite.Prelude.{
  ℕ, ◌+◌, String, Bool, true, false, ◌&&◌, List, [], ◌∷◌, Option, none, some, if◌then◌else◌, ◌==◌,
  nat_eq, string_eq, option_eq, keep, map, Result, ok, raise,
}
use networkbasicswebsite.Text.{concat, strip, present, or_empty}
use networkbasicswebsite.Topology.{TopologyDocument}
use networkbasicswebsite.Simulation.Network.{Library, Network, build_network}
use networkbasicswebsite.Simulation.Forwarding.{M, pure, lift, ◌>>=◌}
use networkbasicswebsite.Simulation.Forwarding.Promises.{start}
use networkbasicswebsite.Lab.Rules.{Check, Rule, LabObjective, CheckResult, ObjectiveResult}
use networkbasicswebsite.Lab.Find.{Verdict}
use networkbasicswebsite.Lab.Traffic.{
  check_ping, check_no_ping, check_dns, check_port, check_dhcp_lease,
}
use networkbasicswebsite.Lab.Settings.{
  check_interface_address, check_in_subnet, check_gateway, check_hostname,
}
use networkbasicswebsite.Lab.Tables.{
  check_static_route, check_vlan, check_dhcp_pool, check_device_count, check_link_rule,
}

pub record GradeReport : Type 0 where
  pub results : List CheckResult
  pub objectives : List ObjectiveResult
  pub points_earned : ℕ
  pub points_possible : ℕ

abbrev pub detail_of : Rule → Verdict → Option String
detail_of rule verdict = if verdict.passed then verdict.detail else elim (present rule.message) [
  | none ↦ verdict.detail
  | some message ↦ some (strip (concat (message ∷ " " ∷ or_empty verdict.detail ∷ [])))
]

-- `_result`
unfoldable pub check_result : Rule → Verdict → CheckResult
check_result rule verdict = record {
  rule_id = rule.id;
  objective_id = rule.objective_id;
  passed = verdict.passed;
  points_earned = if verdict.passed then rule.points else 0;
  points_possible = rule.points;
  summary = verdict.summary;
  detail = detail_of rule verdict;
}

-- The handlers of `_check`.
unfoldable pub handle :
    (String → String) → (List String → List String) → Network → Check → M Verdict
handle lower order net (Check.ping_rule source destination) =
    check_ping lower order net source destination
handle lower order net (Check.no_ping_rule source destination) =
    check_no_ping lower order net source destination
handle lower order net (Check.dns_rule source hostname) = check_dns lower order net source hostname
handle lower order net (Check.port_rule source destination port) =
    check_port lower order net source destination port
handle lower order net (Check.dhcp_lease_rule source) = check_dhcp_lease lower order net source
handle lower order net (Check.interface_address_rule device interface address mask enabled) =
    lift (check_interface_address lower net device interface address mask enabled)
handle lower order net (Check.in_subnet_rule device interface network) =
    lift (check_in_subnet lower net device interface network)
handle lower order net (Check.gateway_rule device gateway) =
    lift (check_gateway lower net device gateway)
handle lower order net (Check.hostname_rule device hostname) =
    lift (check_hostname lower net device hostname)
handle lower order net (Check.static_route_rule device network next_hop) =
    lift (check_static_route lower net device network next_hop)
handle lower order net (Check.vlan_rule device interface vlan) =
    lift (check_vlan lower net device interface vlan)
handle lower order net (Check.dhcp_pool_rule device network) =
    lift (check_dhcp_pool lower net device network)
handle lower order net (Check.device_count_rule kind minimum maximum) =
    pure (check_device_count net kind minimum maximum)
handle lower order net (Check.link_rule source destination) =
    pure (check_link_rule lower net source destination)

-- `_check`
unfoldable pub check_rule :
    (String → String) → (List String → List String) → Network → Rule → M CheckResult
check_rule lower order net rule = do
  verdict ← handle lower order net rule.check
  pure (check_result rule verdict)

-- `[self._check(rule) for rule in rules]`
unfoldable pub check_rules :
    (String → String) → (List String → List String) → Network → List Rule → M (List CheckResult)
check_rules lower order net [] = pure []
check_rules lower order net (rule ∷ rest) = do
  result ← check_rule lower order net rule
  results ← check_rules lower order net rest
  pure (result ∷ results)

unfoldable pub earned_points : List CheckResult → ℕ
earned_points [] = 0
earned_points (result ∷ rest) = result.points_earned + earned_points rest

unfoldable pub possible_points : List CheckResult → ℕ
possible_points [] = 0
possible_points (result ∷ rest) = result.points_possible + possible_points rest

unfoldable pub all_passed : List CheckResult → Bool
all_passed [] = true
all_passed (result ∷ rest) = result.passed && all_passed rest

abbrev pub belongs : String → CheckResult → Bool
belongs id result = result.objective_id == some id

-- The entry of an objective with these results; one without results is passed.
unfoldable pub objective_result : LabObjective → List CheckResult → ObjectiveResult
objective_result objective [] = record {
  objective_id = objective.id;
  title = objective.title;
  passed = true;
  points_earned = 0;
  points_possible = 0;
}
objective_result objective (result ∷ rest) = record {
  objective_id = objective.id;
  title = objective.title;
  passed = all_passed (result ∷ rest);
  points_earned = earned_points (result ∷ rest);
  points_possible = possible_points (result ∷ rest);
}

-- `_roll_up`
unfoldable pub roll_up : List CheckResult → List LabObjective → List ObjectiveResult
roll_up results [] = []
roll_up results (objective ∷ rest) =
    objective_result objective (keep (belongs objective.id) results) ∷ roll_up results rest

-- `grade`
unfoldable pub grade :
    (String → String)
    → (List String → List String)
    → Network
    → List Rule
    → List LabObjective
    → M GradeReport
grade lower order net rules objectives = do
  results ← check_rules lower order net rules
  pure (record {
    results = results;
    objectives = roll_up results objectives;
    points_earned = earned_points results;
    points_possible = possible_points results;
  })

-- `LabGrader(document).grade(rules, objectives)`
unfoldable pub grade_document :
    Library
    → (String → String)
    → (List String → List String)
    → TopologyDocument
    → List Rule
    → List LabObjective
    → Result GradeReport
grade_document lib lower order document rules objectives =
    Prelude.◌>>=◌ (build_network lib document)
      λ net. (grade lower order net rules objectives start).0
