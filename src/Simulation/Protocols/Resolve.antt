-- ===== src/Simulation/Protocols/Resolve.antt =====
-- Names and addresses: `_resolve_destination` and `_address_facing`. `lower` is `str.lower`.
use networkbasicswebsite.Prelude.{
  String, List, [], ◌∷◌, Option, none, some, if◌then◌else◌, values, Result, ok, raise, ◌>>=◌,
}
use networkbasicswebsite.Text.{present}
use networkbasicswebsite.Ipv4.{Ipv4Network, parse_address}
use networkbasicswebsite.Simulation.Network.{
  SimInterface, SimDevice, Network, device_by_name, device_owning,
}
use networkbasicswebsite.Simulation.Forwarding.{local_interface}

pub record Target : Type 0 where
  pub device : SimDevice
  pub address : String

-- `next((item.ip for item in … if item.ip and item.enabled), None)`
unfoldable pub first_address : List SimInterface → Option String
first_address [] = none
first_address (port ∷ rest) =
    let later = first_address rest in
    elim (present port.ip) [
      | none ↦ later
      | some address ↦ if port.enabled then some address else later
    ]

abbrev pub target_named : Option SimDevice → Option Target
target_named none = none
target_named (some device) = elim (first_address (values device.interfaces)) [
  | none ↦ none
  | some address ↦ some (record { device = device; address = address })
]

abbrev pub target_owning : String → Option SimDevice → Option Target
target_owning address none = none
target_owning address (some device) = some (record { device = device; address = address })

-- `_resolve_destination`
unfoldable pub resolve_destination : (String → String) → Network → String → Option Target
resolve_destination lower net destination = elim (parse_address destination) [
  | raise _ ↦ target_named (device_by_name lower net destination)
  | ok _ ↦ target_owning destination (device_owning net destination)
]

abbrev pub facing : List SimInterface → Option (SimInterface × Ipv4Network) → Option String
facing ports none = first_address ports
facing ports (some (port, n)) = port.ip

-- `_address_facing`
unfoldable pub address_facing : SimDevice → String → Result (Option String)
address_facing device destination = do
  target ← parse_address destination
  found ← local_interface target (values device.interfaces)
  ok (facing (values device.interfaces) found)
