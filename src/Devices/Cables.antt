-- ===== src/Devices/Cables.antt =====
-- Cable selection. The texts that `cable_warning` builds are constructors here, with their
-- parameters.
use networkbasicswebsite.Prelude.{
  String, Bool, true, false, not, ◌&&◌, ◌||◌, List, [], ◌∷◌, Option, none, some, if◌then◌else◌,
  ◌==◌, string_eq, option_eq,
}
use networkbasicswebsite.Devices.Kinds.{DeviceKind, CableKind, PortKind, cable_eq, port_eq}
use networkbasicswebsite.Devices.Catalog.{PortEntry, spec_for, interfaces}

-- `kind in _MDI_DEVICES`
abbrev pub mdi : DeviceKind → Bool
mdi DeviceKind.pc = true
mdi DeviceKind.laptop = true
mdi DeviceKind.server = true
mdi DeviceKind.router = true
mdi DeviceKind.firewall = true
mdi DeviceKind.nas = true
mdi DeviceKind.printer = true
mdi DeviceKind.camera = true
mdi DeviceKind.ip_phone = true
mdi DeviceKind.iot = true
mdi DeviceKind.isp = true
mdi _ = false

-- `kind in _MDIX_DEVICES`
abbrev pub mdix : DeviceKind → Bool
mdix DeviceKind.switch = true
mdix DeviceKind.multilayer_switch = true
mdix DeviceKind.access_point = true
mdix DeviceKind.wireless_router = true
mdix DeviceKind.cloud = true
mdix _ = false

kind_of : String → List PortEntry → Option PortKind
kind_of interface [] = none
kind_of interface (entry ∷ rest) =
    if entry.name == interface then some entry.kind else kind_of interface rest

-- `_port_kind`
unfoldable pub port_kind : DeviceKind → String → Option PortKind
unfolding kind_of interfaces spec_for
port_kind kind interface = kind_of interface (interfaces (spec_for kind))

-- `wanted in (source_port, target_port)`
unfoldable pub either_is : PortKind → Option PortKind → Option PortKind → Bool
either_is wanted source target = source == some wanted || target == some wanted

unfoldable pub same_pinout : DeviceKind → DeviceKind → Bool
same_pinout source target = mdi source && mdi target || mdix source && mdix target

-- The choice of `recommended_cable`, once both port kinds are looked up.
abbrev pub cable_for : DeviceKind → Option PortKind → DeviceKind → Option PortKind → CableKind
cable_for source_kind source target_kind target =
    if either_is PortKind.wireless source target
    then CableKind.wireless
    else if either_is PortKind.serial source target
    then CableKind.serial
    else if either_is PortKind.console source target
    then CableKind.console
    else if either_is PortKind.sfp source target
    then CableKind.fiber
    else if same_pinout source_kind target_kind
    then CableKind.crossover
    else CableKind.straight_through

unfoldable pub recommended_cable : DeviceKind → String → DeviceKind → String → CableKind
recommended_cable source_kind source target_kind target =
    cable_for source_kind (port_kind source_kind source) target_kind (port_kind target_kind target)

pub data CableWarning : Type 0 where
  needs_serial needs_wireless : CableWarning
  needs_crossover needs_straight_through : (source target : DeviceKind) → CableWarning

unfoldable pub cable_warning :
    DeviceKind → String → DeviceKind → String → CableKind → Option CableWarning
cable_warning source_kind source target_kind target chosen =
    let expected = recommended_cable source_kind source target_kind target in
    let source_port = port_kind source_kind source in
    let target_port = port_kind target_kind target in
    if chosen == expected
    then none
    else if either_is PortKind.serial source_port target_port && not (chosen == CableKind.serial)
    then some needs_serial
    else if either_is PortKind.wireless source_port target_port
        && not (chosen == CableKind.wireless)
    then some needs_wireless
    else if chosen == CableKind.fiber
    then none
    else if expected == CableKind.crossover
    then some (needs_crossover source_kind target_kind)
    else some (needs_straight_through source_kind target_kind)
