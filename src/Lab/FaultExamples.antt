-- ===== src/Lab/FaultExamples.antt =====
-- A document of two hosts, broken.
use networkbasicswebsite.Prelude.{
  ◌≡◌, refl, String, true, false, List, [], ◌∷◌, none, if◌then◌else◌, ◌==◌, string_eq,
}
use networkbasicswebsite.Text.{strip}
use networkbasicswebsite.Devices.{DeviceKind}
use networkbasicswebsite.Topology.{
  Json, Fields, TopologyDevice, TopologyDocument, validate_structure,
}
use networkbasicswebsite.Simulation.Protocols.Examples.{kept}
use networkbasicswebsite.Lab.Faults.{Fault, field, entry_of, change_entry, shut}
use networkbasicswebsite.Lab.Inject.{
  apply_faults, apply_one, change_device, change_first, change_between, lookup_device, first_device,
}
use networkbasicswebsite.Lab.OnlyThere.{change_entry-entry_of}
use networkbasicswebsite.Lab.Unbroken.{apply_faults-validate_structure}

abbrev host : String → Fields → TopologyDevice
host id config = record {
  id = id;
  kind = DeviceKind.pc;
  name = id;
  group_id = none;
  config = Json.obj config;
}

abbrev hosts : TopologyDocument
hosts = record { devices = host "a" Fields.end ∷ host "b" Fields.end ∷ []; links = []; groups = [] }

abbrev faults : List Fault
faults = Fault.shutdown_interface "b" "Ethernet0" ∷ Fault.disable_link "a" "b" ∷ []

abbrev shut_entry : Fields
shut_entry =
    Fields.member "Ethernet0" (Json.obj (Fields.member "enabled" (Json.flag false) Fields.end))
      Fields.end

hosts-broken :
    (apply_faults kept hosts faults).devices
    ≡ host "a" Fields.end
      ∷ host "b" (Fields.member "interfaces" (Json.obj shut_entry) Fields.end)
      ∷ []
unfolding apply_faults apply_one change_device change_first change_between lookup_device
    first_device change_entry strip
hosts-broken = refl

apply_faults-validate_structure_example :
    validate_structure (apply_faults kept hosts faults) ≡ validate_structure hosts
apply_faults-validate_structure_example = apply_faults-validate_structure kept hosts faults

abbrev addressed_config : Fields
addressed_config =
    Fields.member "interfaces"
      (Json.obj (
        Fields.member "g0" (Json.obj Fields.end) (
          Fields.member "g1" (Json.obj (Fields.member "enabled" (Json.flag true) Fields.end))
            Fields.end)))
      Fields.end

abbrev changed : String
changed = "g0"

abbrev other : String
other = "g1"

abbrev top : String
top = "interfaces"

abbrev kept_key : String
kept_key = "hostname"

change_entry-entry_of_example :
    (entry_of other (change_entry changed shut addressed_config) ≡ (
      if changed == other
      then shut (entry_of changed addressed_config)
      else entry_of other addressed_config))
    × ((top == kept_key) ≡ false
        → field kept_key (change_entry changed shut addressed_config)
          ≡ field kept_key addressed_config)
change_entry-entry_of_example = change_entry-entry_of changed other kept_key shut addressed_config
