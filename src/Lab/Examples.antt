-- ===== src/Lab/Examples.antt =====
-- A lab on the document of a single host, graded: two rules pass and one fails.
use networkbasicswebsite.Prelude.{
  ◌≡◌, ◌≤◌, refl, String, true, List, [], ◌∷◌, none, some, if◌then◌else◌, ◌==◌, string_eq, Result,
  ok, raise,
}
use networkbasicswebsite.Text.{strip, split, str}
use networkbasicswebsite.Ipv4.{parse_address}
use networkbasicswebsite.Devices.{spec_for, interfaces}
use networkbasicswebsite.Topology.{TopologyDocument}
use networkbasicswebsite.Simulation.Network.{
  Network, build_network, build_device, add_devices, add_links, device_owning, first_owning,
  owns_address, first_holding, interface_holding,
}
use networkbasicswebsite.Simulation.Forwarding.{get_events, ◌>>=◌}
use networkbasicswebsite.Simulation.Forwarding.Fresh.{fresh}
use networkbasicswebsite.Simulation.Protocols.{ping, ping_target, resolve_destination, report}
use networkbasicswebsite.Simulation.Protocols.Examples.{in_order}
use networkbasicswebsite.Simulation.Protocols.Runs.{lib, lonely}
use networkbasicswebsite.Lab.Rules.{Check, Rule, LabObjective}
use networkbasicswebsite.Lab.Find.{find_device, named_like, without_underscores}
use networkbasicswebsite.Lab.Traffic.{judged, check_ping, check_no_ping}
use networkbasicswebsite.Lab.Tables.{kind_count, check_device_count}
use networkbasicswebsite.Lab.Grade.{
  GradeReport, check_result, handle, check_rule, check_rules, earned_points, possible_points,
  all_passed, objective_result, roll_up, grade, grade_document,
}
use networkbasicswebsite.Lab.Graded.{
  rule_points, won_points, IsGraded, grade_document-IsGraded, grade_document-points,
}

abbrev rule_of : String → Check → Rule
rule_of id check = record {
  id = id;
  objective_id = some "reach";
  points = 10;
  message = none;
  check = check;
}

abbrev rules : List Rule
rules =
    rule_of "one" (Check.device_count_rule "pc" 1 none)
    ∷ rule_of "far" (Check.ping_rule "pc1" "10.0.0.9")
    ∷ rule_of "cut" (Check.no_ping_rule "PC1" "10.0.0.9")
    ∷ []

abbrev objectives : List LabObjective
objectives = (record { id = "reach"; title = "Reach"; hint = none; points = 10 }) ∷ []

abbrev document : TopologyDocument
document = record { devices = lonely ∷ []; links = []; groups = [] }

abbrev no_report : GradeReport
no_report = record { results = []; objectives = []; points_earned = 0; points_possible = 0 }

abbrev report_of : Result GradeReport → GradeReport
report_of (ok report) = report
report_of (raise exn) = no_report

-- `str.lower`, on the only name that is not in lower case
abbrev lowered : String → String
lowered text = if text == "PC1" then "pc1" else text

abbrev graded : GradeReport
graded = report_of (grade_document lib lowered in_order document rules objectives)

document-graded :
    (grade_document lib lowered in_order document rules objectives ≡ ok graded)
    × (graded.points_earned ≡ 20)
    × (graded.points_possible ≡ 30)
unfolding grade_document grade roll_up objective_result all_passed possible_points earned_points
    check_rules check_rule handle check_result check_device_count kind_count check_no_ping
    check_ping judged without_underscores named_like find_device fresh report resolve_destination
    ping_target ping get_events ◌>>=◌ build_network build_device add_devices add_links spec_for
    interfaces strip parse_address split str device_owning first_owning owns_address first_holding
    interface_holding
document-graded = (refl, refl, refl)

grade_document-IsGraded_example :
    (net : Network) × (build_network lib document ≡ ok net)
    × IsGraded lowered in_order net rules objectives graded
grade_document-IsGraded_example =
    grade_document-IsGraded lib lowered in_order document rules objectives graded document-graded.0

grade_document-points_example :
    (graded.points_possible ≡ rule_points rules)
    × (graded.points_earned ≡ won_points rules graded.results)
    × (graded.points_earned ≤ rule_points rules)
    × (all_passed graded.results ≡ true → graded.points_earned ≡ rule_points rules)
grade_document-points_example =
    grade_document-points lib lowered in_order document rules objectives graded document-graded.0
