-- ===== src/Topology/Examples.antt =====
-- A document of two devices and a cable.
use networkbasicswebsite.Prelude.{◌≡◌, ◌≢◌, refl, inl, String, true, [], ◌∷◌, none, Memᴰ, Dict}
use networkbasicswebsite.Devices.{DeviceKind, CableKind, spec_for, interfaces}
use networkbasicswebsite.Topology.Document.{
  obj, end, TopologyDevice, TopologyLink, TopologyDocument,
}
use networkbasicswebsite.Topology.Structure.{
  joins_itself, passed, failed, interface_names, index_devices, has_duplicates, check_groups,
  occupy, Occupancy, check_link, check_links, validate_structure,
}
use networkbasicswebsite.Topology.Wiring.{slot, IsWired, NewIds}
use networkbasicswebsite.Topology.Validated.{
  validate_structure-IsWired, validate_structure-one_cable,
}
use networkbasicswebsite.Topology.SelfJoin.{validate_structure-ne-joins_itself}

abbrev device : String → DeviceKind → TopologyDevice
device id kind = record { id = id; kind = kind; name = id; group_id = none; config = obj end }

abbrev cable : TopologyLink
cable = record {
  id = "l1";
  source = record { device_id = "pc1"; interface = "Ethernet0" };
  target = record { device_id = "sw1"; interface = "FastEthernet0/1" };
  cable = CableKind.straight_through;
  enabled = true;
}

abbrev desk : TopologyDocument
desk = record {
  devices = device "pc1" DeviceKind.pc ∷ device "sw1" DeviceKind.switch ∷ [];
  links = cable ∷ [];
  groups = [];
}

abbrev taken : Occupancy
taken = record {
  seen_links = "l1" ∷ [];
  occupied = (("pc1", "Ethernet0"), "l1") ∷ (("sw1", "FastEthernet0/1"), "l1") ∷ [];
}

desk-passes : validate_structure desk ≡ passed taken
unfolding validate_structure index_devices has_duplicates check_groups check_links check_link occupy
    interface_names spec_for interfaces
desk-passes = refl

validate_structure-IsWired_example :
    (by_id : Dict String TopologyDevice) × (index_devices [] desk.devices ≡ passed by_id)
    × NewIds [] desk.links
    × ((link : TopologyLink) → Memᴰ link desk.links → IsWired by_id taken.occupied link)
validate_structure-IsWired_example = validate_structure-IsWired desk taken desk-passes

validate_structure-one_cable_example : cable ≡ cable
validate_structure-one_cable_example =
    validate_structure-one_cable desk taken cable cable (slot cable.source) desk-passes
      (Memᴰ.head refl) (Memᴰ.head refl) (inl refl) (inl refl)

validate_structure-ne-joins_itself_example : validate_structure desk ≢ failed (joins_itself "l1")
validate_structure-ne-joins_itself_example = validate_structure-ne-joins_itself desk "l1"
