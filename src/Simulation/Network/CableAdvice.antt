-- ===== src/Simulation/Network/CableAdvice.antt =====
-- The catalogue's advice on a cable, against the network's test of it.
use networkbasicswebsite.Prelude.{String, not, ◌&&◌, ◌||◌, ◌≡◌, ◌==◌, arith, option_eq}
use networkbasicswebsite.Text.{is_some}
use networkbasicswebsite.Devices.{
  DeviceKind, CableKind, PortKind, cable_eq, port_eq, port_kind, either_is, recommended_cable,
  cable_warning,
}
use networkbasicswebsite.Simulation.Network.Build.{cable_accepted}

-- `cable_warning` warns of exactly the cables that the network does not accept, and of those of
-- fiber that it accepts on a serial or wireless port where another cable is recommended.
pub cable_warning-cable_accepted :
    (k : DeviceKind) (i : String) (l : DeviceKind) (j : String) (chosen : CableKind)
    → is_some (cable_warning k i l j chosen) ≡ (
        not (cable_accepted chosen (recommended_cable k i l j))
        || (chosen == CableKind.fiber
            && not (chosen == recommended_cable k i l j)
            && (either_is PortKind.serial (port_kind k i) (port_kind l j)
                || either_is PortKind.wireless (port_kind k i) (port_kind l j))))
unfolding cable_warning
cable_warning-cable_accepted k i l j chosen = elim chosen [
  | CableKind.straight_through ↦ ground arith
  | CableKind.crossover ↦ ground arith
  | CableKind.fiber ↦ ground arith
  | CableKind.console ↦ ground arith
  | CableKind.serial ↦ ground arith
  | CableKind.wireless ↦ ground arith
]
