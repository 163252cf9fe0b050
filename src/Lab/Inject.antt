-- ===== src/Lab/Inject.antt =====
-- `_find_device`, `_find_link`, `_apply_one` and `apply_faults` of fault_injection.py. `lower` is
-- `str.lower`.
use networkbasicswebsite.Prelude.{
  String, Bool, true, false, ◌&&◌, ◌||◌, List, [], ◌∷◌, Option, none, some, if◌then◌else◌, ◌==◌,
  nat_eq, string_eq,
}
use networkbasicswebsite.Text.{strip}
use networkbasicswebsite.Devices.{CableKind, cable_value}
use networkbasicswebsite.Topology.{TopologyDevice, TopologyLink, TopologyDocument}
use networkbasicswebsite.Lab.Faults.{
  Fault, Change, on_entry, shut, readdress, move_vlan, on_gateway, on_routes,
}

-- The change of the first device that passes the test, if there is one.
unfoldable pub change_first :
    (TopologyDevice → Bool) → Change → List TopologyDevice → Option (List TopologyDevice × Bool)
change_first test change [] = none
change_first test change (device ∷ rest) =
    let later = change_first test change rest in
    if test device
    then some ((change device).0 ∷ rest, (change device).1)
    else elim later [ none ↦ none | some (more, applied) ↦ some (device ∷ more, applied) ]

-- `device.name.strip().lower() == reference.strip().lower()`; `lower` is `str.lower`
abbrev pub is_named : (String → String) → String → TopologyDevice → Bool
is_named lower reference device = lower (strip device.name) == lower (strip reference)

abbrev pub has_id : String → TopologyDevice → Bool
has_id reference device = device.id == reference

-- The change of the device that `_find_device` finds; none is not applied.
unfoldable pub change_device :
    (String → String) → String → Change → List TopologyDevice → List TopologyDevice × Bool
change_device lower reference change devices =
    elim (change_first (is_named lower reference) change devices) [
      | some changed ↦ changed
      | none ↦ elim (change_first (has_id reference) change devices) [
        | some changed ↦ changed
        | none ↦ (devices, false)
      ]
    ]

unfoldable pub first_device : (TopologyDevice → Bool) → List TopologyDevice → Option TopologyDevice
first_device test [] = none
first_device test (device ∷ rest) = if test device then some device else first_device test rest

-- `_find_device`, of `fault_injection.py`
unfoldable pub lookup_device :
    (String → String) → List TopologyDevice → String → Option TopologyDevice
lookup_device lower devices reference = elim (first_device (is_named lower reference) devices) [
  | some device ↦ some device
  | none ↦ first_device (has_id reference) devices
]

-- `{link.source.device_id, link.target.device_id} == {a, b}`
abbrev pub links_ids : String → String → TopologyLink → Bool
links_ids a b link =
    link.source.device_id == a && link.target.device_id == b
    || link.source.device_id == b && link.target.device_id == a

unfoldable pub change_link :
    String → String → (TopologyLink → TopologyLink) → List TopologyLink → List TopologyLink × Bool
change_link a b change [] = ([], false)
change_link a b change (link ∷ rest) =
    let later = change_link a b change rest in
    if links_ids a b link then (change link ∷ rest, true) else (link ∷ later.0, later.1)

abbrev pub off : TopologyLink → TopologyLink
off link = record link { enabled = false }

abbrev pub recable : CableKind → TopologyLink → TopologyLink
recable cable link = record link { cable = cable }

unfoldable pub cable_among : String → List CableKind → Option CableKind
cable_among value [] = none
cable_among value (cable ∷ rest) =
    if cable_value cable == value then some cable else cable_among value rest

-- `CableKind(value)`
abbrev pub cable_kind : String → Option CableKind
cable_kind value = cable_among value (
    CableKind.straight_through ∷ CableKind.crossover ∷ CableKind.fiber ∷ CableKind.console
    ∷ CableKind.serial ∷ CableKind.wireless ∷ [])

abbrev pub with_devices : TopologyDocument → List TopologyDevice × Bool → TopologyDocument × Bool
with_devices document (devices, applied) = (record document { devices = devices }, applied)

abbrev pub with_links : TopologyDocument → List TopologyLink × Bool → TopologyDocument × Bool
with_links document (links, applied) = (record document { links = links }, applied)

-- The change of the link that `_find_link` finds.
unfoldable pub change_between :
    (String → String)
    → TopologyDocument
    → String
    → String
    → (TopologyLink → TopologyLink)
    → TopologyDocument × Bool
change_between lower document source destination change =
    elim (lookup_device lower document.devices source) [
      | none ↦ (document, false)
      | some a ↦ elim (lookup_device lower document.devices destination) [
        | none ↦ (document, false)
        | some b ↦ with_links document (change_link a.id b.id change document.links)
      ]
    ]

abbrev pub on_device :
    (String → String) → TopologyDocument → String → Change → TopologyDocument × Bool
on_device lower document reference change =
    with_devices document (change_device lower reference change document.devices)

-- `_apply_one`
unfoldable pub apply_one : (String → String) → TopologyDocument → Fault → TopologyDocument × Bool
apply_one lower document (Fault.shutdown_interface device interface) =
    on_device lower document device (on_entry interface shut)
apply_one lower document (Fault.wrong_address device interface address mask) =
    on_device lower document device (on_entry interface (readdress address mask))
apply_one lower document (Fault.wrong_gateway device gateway) =
    on_device lower document device (on_gateway gateway)
apply_one lower document (Fault.wrong_vlan device interface vlan) =
    on_device lower document device (on_entry interface (move_vlan vlan))
apply_one lower document (Fault.remove_static_route device network) =
    on_device lower document device (on_routes network)
apply_one lower document (Fault.disable_link source destination) =
    change_between lower document source destination off
apply_one lower document (Fault.wrong_cable source destination cable) = elim (cable_kind cable) [
  | none ↦ (document, false)
  | some kind ↦ change_between lower document source destination (recable kind)
]

-- `apply_faults`: the log is not modelled.
unfoldable pub apply_faults : (String → String) → TopologyDocument → List Fault → TopologyDocument
apply_faults lower document [] = document
apply_faults lower document (fault ∷ rest) =
    apply_faults lower (apply_one lower document fault).0 rest
