-- ===== src/Devices/Kinds.antt =====
-- The enumerations of backend/app/models/enums.py that the simulator reads.
use networkbasicswebsite.Prelude.{String, Bool, true, false, ◌≡◌, ◌↔◌, arith, Eq}

pub data DeviceKind : Type 0 where
  pc laptop server router switch multilayer_switch firewall wireless_router access_point :
      DeviceKind
  cloud isp nas printer camera ip_phone iot : DeviceKind

pub data CableKind : Type 0 where
  straight_through crossover fiber console serial wireless : CableKind

pub data PortKind : Type 0 where
  ethernet fast_ethernet gigabit_ethernet ten_gigabit serial console wireless sfp : PortKind

-- `a is b` on cables and on ports
abbrev pub cable_beq : CableKind → CableKind → Bool
cable_beq CableKind.straight_through CableKind.straight_through = true
cable_beq CableKind.crossover CableKind.crossover = true
cable_beq CableKind.fiber CableKind.fiber = true
cable_beq CableKind.console CableKind.console = true
cable_beq CableKind.serial CableKind.serial = true
cable_beq CableKind.wireless CableKind.wireless = true
cable_beq _ _ = false

pub cable_beq_iff : (a b : CableKind) → (cable_beq a b ≡ true) ↔ (a ≡ b)
cable_beq_iff CableKind.straight_through CableKind.straight_through = ground arith
cable_beq_iff _ _ = ground arith

abbrev pub port_beq : PortKind → PortKind → Bool
port_beq PortKind.ethernet PortKind.ethernet = true
port_beq PortKind.fast_ethernet PortKind.fast_ethernet = true
port_beq PortKind.gigabit_ethernet PortKind.gigabit_ethernet = true
port_beq PortKind.ten_gigabit PortKind.ten_gigabit = true
port_beq PortKind.serial PortKind.serial = true
port_beq PortKind.console PortKind.console = true
port_beq PortKind.wireless PortKind.wireless = true
port_beq PortKind.sfp PortKind.sfp = true
port_beq _ _ = false

pub port_beq_iff : (a b : PortKind) → (port_beq a b ≡ true) ↔ (a ≡ b)
port_beq_iff PortKind.ethernet PortKind.ethernet = ground arith
port_beq_iff _ _ = ground arith

instance abbrev pub cable_eq : Eq CableKind
cable_eq = record { eqb = cable_beq; eqb_iff = cable_beq_iff }

instance abbrev pub port_eq : Eq PortKind
port_eq = record { eqb = port_beq; eqb_iff = port_beq_iff }

-- `kind.value`
abbrev pub device_value : DeviceKind → String
device_value pc = "pc"
device_value laptop = "laptop"
device_value server = "server"
device_value router = "router"
device_value switch = "switch"
device_value multilayer_switch = "multilayer_switch"
device_value firewall = "firewall"
device_value wireless_router = "wireless_router"
device_value access_point = "access_point"
device_value cloud = "cloud"
device_value isp = "isp"
device_value nas = "nas"
device_value printer = "printer"
device_value camera = "camera"
device_value ip_phone = "ip_phone"
device_value iot = "iot"

abbrev pub cable_value : CableKind → String
cable_value straight_through = "straight_through"
cable_value crossover = "crossover"
cable_value fiber = "fiber"
cable_value console = "console"
cable_value serial = "serial"
cable_value wireless = "wireless"
