-- ===== src/Simulation/Network/Cabling.antt =====
-- The far end of a cable is the end of one of the network's links, and dictionary bounds.
use networkbasicswebsite.Prelude.{
  ◌≤◌, ◌≡◌, String, true, [], ◌∷◌, some, inl, inr, arith, string_eq, pair_eq, elem, elem-head,
  elem-cons, length, Dict, lookup, Option-cases, ◌⊎◌,
}
use networkbasicswebsite.Simulation.Network.Types.{Port, SimDevice, SimLink, peer, usable, Network}
use networkbasicswebsite.Simulation.Network.Queries.{link_on, peer_of}
use networkbasicswebsite.Simulation.Network.Flood.{port_count, cable_ends}

-- An end of a link of the dictionary is among the cable ends.
cable_ends-lookup :
    (key : String) (link : SimLink) (links : Dict String SimLink)
    → lookup key links ≡ some link
    → (elem (link.a_device, link.a_interface) (cable_ends links) ≡ true)
      × (elem (link.b_device, link.b_interface) (cable_ends links) ≡ true)
unfolding cable_ends
cable_ends-lookup key link [] h = cc
cable_ends-lookup key link ((j, other) ∷ rest) h =
    let a : Port = (other.a_device, other.a_interface) in
    let b : Port = (other.b_device, other.b_interface) in
    ground (
      arith,
      cable_ends-lookup key link rest,
      elem-head a (b ∷ cable_ends rest),
      elem-cons b a (b ∷ cable_ends rest),
      elem-head b (cable_ends rest),
    )

pub peer-ends :
    (link : SimLink) (device_id interface : String) (q : Port)
    → peer link device_id interface ≡ some q
    → (q ≡ (link.a_device, link.a_interface)) ⊎ (q ≡ (link.b_device, link.b_interface))
unfolding peer
peer-ends link device_id interface q h = ground arith

pub peer_of-link :
    (net : Network) (device_id interface : String) (q : Port)
    → peer_of net device_id interface ≡ some q
    → (link : SimLink) × (link_on net device_id interface ≡ some link)
      × (usable link ≡ true)
      × (peer link device_id interface ≡ some q)
unfolding peer_of
peer_of-link net device_id interface q h = elim (Option-cases (link_on net device_id interface)) [
  | inl e ↦ ground arith
  | inr (link, e) ↦ (link, e, ground arith, ground arith)
]

pub link_on-lookup :
    (net : Network) (device_id interface : String) (link : SimLink)
    → link_on net device_id interface ≡ some link
    → (key : String) × (lookup key net.links ≡ some link)
unfolding link_on
link_on-lookup net device_id interface link h =
    elim (Option-cases (lookup (device_id, interface) net.port_link)) [
      | inl e ↦ ground arith
      | inr (key, e) ↦ (key, ground arith)
    ]

-- Where a usable cable leads is an end of a cable.
pub peer_of-cable_ends :
    (net : Network) (device_id interface : String) (q : Port)
    → peer_of net device_id interface ≡ some q
    → elem q (cable_ends net.links) ≡ true
peer_of-cable_ends net device_id interface q h =
    let (link, on, _, far) = peer_of-link net device_id interface q h in
    let (key, found) = link_on-lookup net device_id interface link on in
    let (a, b) = cable_ends-lookup key link net.links found in
    ground (arith, peer-ends link device_id interface q)

-- No device has more ports than the network.
pub length-le-port_count :
    (key : String) (device : SimDevice) (devices : Dict String SimDevice)
    → lookup key devices ≡ some device
    → length device.interfaces ≤ port_count devices
unfolding port_count
length-le-port_count key device [] h = cc
length-le-port_count key device ((j, other) ∷ rest) h =
    ground (arith, length-le-port_count key device rest)
