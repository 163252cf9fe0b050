-- ===== src/Lab/Rules.antt =====
-- backend/app/schemas/lab.py: what a lab's author writes, and what a graded run reports.
use networkbasicswebsite.Prelude.{ℕ, String, Bool, Option}

pub record LabObjective : Type 0 where
  pub id : String
  pub title : String
  pub hint : Option String
  pub points : ℕ

-- The fields of the rules' classes behind those of `RuleBase`.
pub data Check : Type 0 where
  -- source, destination
  ping_rule : String → String → Check
  no_ping_rule : String → String → Check
  -- source, hostname
  dns_rule : String → String → Check
  -- source, destination, port
  port_rule : String → String → ℕ → Check
  -- source
  dhcp_lease_rule : String → Check
  -- device, interface, address, mask, enabled
  interface_address_rule : String → String → Option String → Option String → Option Bool → Check
  -- device, interface, network
  in_subnet_rule : String → Option String → String → Check
  -- device, gateway
  gateway_rule : String → String → Check
  -- device, hostname
  hostname_rule : String → String → Check
  -- device, network, next hop
  static_route_rule : String → String → Option String → Check
  -- device, interface, vlan
  vlan_rule : String → String → ℕ → Check
  -- device, network
  dhcp_pool_rule : String → String → Check
  -- kind, minimum, maximum
  device_count_rule : String → ℕ → Option ℕ → Check
  -- source, destination
  link_rule : String → String → Check

-- `RuleBase`, with the rule's own fields.
pub record Rule : Type 0 where
  pub id : String
  pub objective_id : Option String
  pub points : ℕ
  pub message : Option String
  pub check : Check

pub record CheckResult : Type 0 where
  pub rule_id : String
  pub objective_id : Option String
  pub passed : Bool
  pub points_earned : ℕ
  pub points_possible : ℕ
  pub summary : String
  pub detail : Option String

pub record ObjectiveResult : Type 0 where
  pub objective_id : String
  pub title : String
  pub passed : Bool
  pub points_earned : ℕ
  pub points_possible : ℕ
