-- ===== src/Simulation/Network/Queries.antt =====
-- Topology queries: cables, peers, and devices by name or address.
use networkbasicswebsite.Prelude.{
  String, List, [], ◌∷◌, Option, none, some, if◌then◌else◌, ◌==◌, string_eq, pair_eq, lookup,
  values,
}
use networkbasicswebsite.Simulation.Network.Types.{
  Port, SimDevice, owns_address, SimLink, peer, usable, Network,
}

-- `self.links.get(link_id) if link_id else None`
abbrev pub link_by_id : Network → Option String → Option SimLink
link_by_id net none = none
link_by_id net (some link_id) = if link_id == "" then none else lookup link_id net.links

unfoldable pub link_on : Network → String → String → Option SimLink
link_on net device_id interface = link_by_id net (lookup (device_id, interface) net.port_link)

-- The far end of a cable, if it is usable.
abbrev pub far_end : Option SimLink → String → String → Option Port
far_end none device_id interface = none
far_end (some link) device_id interface =
    if usable link then peer link device_id interface else none

unfoldable pub peer_of : Network → String → String → Option Port
peer_of net device_id interface = far_end (link_on net device_id interface) device_id interface

first_named : (String → String) → String → List SimDevice → Option SimDevice
first_named lower lowered [] = none
first_named lower lowered (device ∷ rest) =
    if lower device.name == lowered then some device else first_named lower lowered rest

-- `lower` is `str.lower`
unfoldable pub device_by_name : (String → String) → Network → String → Option SimDevice
unfolding first_named
device_by_name lower net name = first_named lower (lower name) (values net.devices)

unfoldable pub first_owning : String → List SimDevice → Option SimDevice
first_owning address [] = none
first_owning address (device ∷ rest) =
    if owns_address device address then some device else first_owning address rest

unfoldable pub device_owning : Network → String → Option SimDevice
device_owning net address = first_owning address (values net.devices)
