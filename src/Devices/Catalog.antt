-- ===== src/Devices/Catalog.antt =====
-- The device catalogue: which ports each kind of device has, and whether it is an endpoint.
use networkbasicswebsite.Prelude.{
  ℕ, zero, suc, ◌+◌, String, Bool, true, false, not, List, [], ◌∷◌, ◌++◌, ◌==◌,
}
use networkbasicswebsite.Text.{str, concat}
use networkbasicswebsite.Devices.Kinds.{DeviceKind, PortKind, port_eq}

pub record PortTemplate : Type 0 where
  pub prefix : String
  pub short_prefix : String
  pub kind : PortKind
  pub count : ℕ
  pub start : ℕ
  pub slot : String

pub record DeviceSpec : Type 0 where
  pub kind : DeviceKind
  pub osi_layer : ℕ
  pub ports : List PortTemplate
  pub has_cli : Bool
  pub is_endpoint : Bool

-- An entry of `DeviceSpec.interfaces()`.
pub record PortEntry : Type 0 where
  pub name : String
  pub short_name : String
  pub kind : PortKind
  pub connectable : Bool

-- `range(start, start + count)`, each index formatted by `f`
abbrev count_up {ℓ} : {A : Type ℓ} → (ℕ → A) → ℕ → ℕ → List A
count_up f start zero = []
count_up f start (suc n) = f start ∷ count_up f (start + 1) n

names : PortTemplate → List String
unfolding str
names t = count_up (λ index. concat (t.prefix ∷ t.slot ∷ str index ∷ [])) t.start t.count

-- `zip(template.names(), template.short_names(), strict=True)`: both have `count` names
entries : PortTemplate → List PortEntry
unfolding str
entries t =
    count_up
      (λ index. record {
        name = concat (t.prefix ∷ t.slot ∷ str index ∷ []);
        short_name = concat (t.short_prefix ∷ t.slot ∷ str index ∷ []);
        kind = t.kind;
        connectable = not (t.kind == PortKind.console);
      })
      t.start t.count

all_entries : List PortTemplate → List PortEntry
unfolding entries
all_entries [] = []
all_entries (t ∷ ts) = entries t ++ all_entries ts

unfoldable pub interfaces : DeviceSpec → List PortEntry
unfolding all_entries
interfaces spec = all_entries spec.ports

abbrev ports : String → String → PortKind → ℕ → ℕ → String → PortTemplate
ports prefix short kind count start slot = record {
  prefix = prefix;
  short_prefix = short;
  kind = kind;
  count = count;
  start = start;
  slot = slot;
}

-- `_console()`
abbrev console_port : PortTemplate
console_port = ports "Console" "con" PortKind.console 1 0 ""

abbrev ethernet_ports : ℕ → PortTemplate
ethernet_ports count = ports "Ethernet" "eth" PortKind.ethernet count 0 ""

abbrev wireless_port : PortTemplate
wireless_port = ports "Wireless" "wlan" PortKind.wireless 1 0 ""

abbrev serial_ports : PortTemplate
serial_ports = ports "Serial" "s" PortKind.serial 2 0 "0/0/"

abbrev gigabit_ports : ℕ → ℕ → PortTemplate
gigabit_ports count start = ports "GigabitEthernet" "g" PortKind.gigabit_ethernet count start "0/"

abbrev endpoint : DeviceKind → List PortTemplate → DeviceSpec
endpoint kind ps = record {
  kind = kind;
  osi_layer = 7;
  ports = ps;
  has_cli = false;
  is_endpoint = true;
}

abbrev infrastructure : DeviceKind → ℕ → Bool → List PortTemplate → DeviceSpec
infrastructure kind layer cli ps = record {
  kind = kind;
  osi_layer = layer;
  ports = ps;
  has_cli = cli;
  is_endpoint = false;
}

-- `CATALOG[kind]`
unfoldable pub spec_for : DeviceKind → DeviceSpec
spec_for DeviceKind.pc = endpoint DeviceKind.pc (ethernet_ports 1 ∷ [])
spec_for DeviceKind.laptop = endpoint DeviceKind.laptop (ethernet_ports 1 ∷ wireless_port ∷ [])
spec_for DeviceKind.server = endpoint DeviceKind.server (ethernet_ports 2 ∷ [])
spec_for DeviceKind.router =
    infrastructure DeviceKind.router 3 true (gigabit_ports 3 0 ∷ serial_ports ∷ console_port ∷ [])
spec_for DeviceKind.switch = infrastructure DeviceKind.switch 2 true (
    ports "FastEthernet" "fa" PortKind.fast_ethernet 24 1 "0/"
    ∷ gigabit_ports 2 1
    ∷ console_port
    ∷ [])
spec_for DeviceKind.multilayer_switch = infrastructure DeviceKind.multilayer_switch 3 true (
    ports "FastEthernet" "fa" PortKind.fast_ethernet 24 1 "0/"
    ∷ gigabit_ports 4 1
    ∷ console_port
    ∷ [])
spec_for DeviceKind.firewall =
    infrastructure DeviceKind.firewall 4 true (gigabit_ports 4 0 ∷ console_port ∷ [])
spec_for DeviceKind.wireless_router = infrastructure DeviceKind.wireless_router 3 false (
    ports "Internet" "wan" PortKind.ethernet 1 0 ""
    ∷ ports "LAN" "lan" PortKind.ethernet 4 1 "0/"
    ∷ wireless_port
    ∷ [])
spec_for DeviceKind.access_point =
    infrastructure DeviceKind.access_point 2 false (gigabit_ports 1 0 ∷ wireless_port ∷ [])
spec_for DeviceKind.cloud =
    infrastructure DeviceKind.cloud 3 false (ports "Link" "link" PortKind.ethernet 4 1 "0/" ∷ [])
spec_for DeviceKind.isp =
    infrastructure DeviceKind.isp 3 false (gigabit_ports 2 0 ∷ serial_ports ∷ [])
spec_for DeviceKind.nas = endpoint DeviceKind.nas (ethernet_ports 2 ∷ [])
spec_for DeviceKind.printer = endpoint DeviceKind.printer (ethernet_ports 1 ∷ [])
spec_for DeviceKind.camera = endpoint DeviceKind.camera (ethernet_ports 1 ∷ [])
spec_for DeviceKind.ip_phone =
    endpoint DeviceKind.ip_phone
      (ethernet_ports 1 ∷ ports "PC-Port" "pc" PortKind.ethernet 1 0 "" ∷ [])
spec_for DeviceKind.iot = endpoint DeviceKind.iot (ethernet_ports 1 ∷ wireless_port ∷ [])
