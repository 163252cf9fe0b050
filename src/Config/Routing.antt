-- ===== src/Config/Routing.antt =====
-- Static routes and the dynamic routing protocols.
use networkbasicswebsite.Prelude.{ℕ, String, Bool, List, Option}

pub record VlanConfig : Type 0 where
  pub id : ℕ
  pub name : String

pub record StaticRoute : Type 0 where
  pub network : String
  pub mask : String
  pub next_hop : Option String
  pub exit_interface : Option String
  pub distance : ℕ

pub record OspfNetwork : Type 0 where
  pub network : String
  pub wildcard : String
  pub area : ℕ

pub record OspfConfig : Type 0 where
  pub process_id : ℕ
  pub router_id : Option String
  pub networks : List OspfNetwork
  pub passive_interfaces : List String

pub record EigrpNetwork : Type 0 where
  pub network : String
  pub wildcard : Option String

pub record EigrpConfig : Type 0 where
  pub as_number : ℕ
  pub router_id : Option String
  pub networks : List EigrpNetwork
  pub auto_summary : Bool

pub record RipConfig : Type 0 where
  pub version : ℕ
  pub networks : List String
  pub auto_summary : Bool
