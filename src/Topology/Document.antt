-- ===== src/Topology/Document.antt =====
-- The topology document.
use networkbasicswebsite.Prelude.{String, Bool, List, Option}
use networkbasicswebsite.Devices.{DeviceKind, CableKind}

-- A device's configuration is free-form JSON. A number is kept as its text.
mutual
  pub data Json : Type 0 where
    null : Json
    flag : Bool → Json
    number : String → Json
    text : String → Json
    arr : Items → Json
    obj : Fields → Json

  pub data Items : Type 0 where
    nil : Items
    cons : Json → Items → Items

  pub data Fields : Type 0 where
    end : Fields
    member : String → Json → Fields → Fields

pub record TopologyDevice : Type 0 where
  pub id : String
  pub kind : DeviceKind
  pub name : String
  pub group_id : Option String
  pub config : Json

pub record LinkEndpoint : Type 0 where
  pub device_id : String
  pub interface : String

pub record TopologyLink : Type 0 where
  pub id : String
  pub source : LinkEndpoint
  pub target : LinkEndpoint
  pub cable : CableKind
  pub enabled : Bool

pub record TopologyGroup : Type 0 where
  pub id : String
  pub name : String

pub record TopologyDocument : Type 0 where
  pub devices : List TopologyDevice
  pub links : List TopologyLink
  pub groups : List TopologyGroup
