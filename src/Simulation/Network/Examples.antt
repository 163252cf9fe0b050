-- ===== src/Simulation/Network/Examples.antt =====
-- A host's subnet and its broadcast on the small network of module Samples.
use networkbasicswebsite.Prelude.{
  ◌≡◌, refl, ◌↔◌, true, false, [], ◌∷◌, List, none, some, elem, string_eq, pair_eq, ok,
}
use networkbasicswebsite.Text.{split}
use networkbasicswebsite.Ipv4.{Ipv4Network, parse_address, parse_network}
use networkbasicswebsite.Config.{access}
use networkbasicswebsite.Simulation.Network.Types.{
  Port, network, SimDevice, peer, switches_frames, carries_vlan,
}
use networkbasicswebsite.Simulation.Network.Queries.{peer_of, link_on}
use networkbasicswebsite.Simulation.Network.Flood.{
  flood, flood_loop, flood_step, enqueue, exits, exits_over, admit, ingress, port_count, cable_ends,
  flood_fuel, broadcast_domain,
}
use networkbasicswebsite.Simulation.Network.Broadcast.{Arrives, LetsIn}
use networkbasicswebsite.Simulation.Network.Untagged.{IsAccess, broadcast_domain-exact}
use networkbasicswebsite.Simulation.Samples.{pc1_port, office, sw1, port_at}

abbrev entered : Port
entered = ("sw1", "f1")

abbrev pc2_port : Port
pc2_port = ("pc2", "e0")

abbrev origin : List Port
origin = ("pc1", "e0") ∷ []

abbrev heard : List Port
heard = ("sw1", "f1") ∷ ("pc2", "e0") ∷ ("r1", "g0") ∷ []

entered-IsAccess : IsAccess office entered 10
unfolding switches_frames
entered-IsAccess = record {
  device = sw1;
  known = refl;
  switch = refl;
  port = port_at "sw1" "f1" "02:03" none (some access);
  present = refl;
  mode = refl;
  member = refl;
}

cable_of_pc1 : peer_of office "pc1" "e0" ≡ some entered
unfolding peer_of link_on peer
cable_of_pc1 = refl

pc1_heard : broadcast_domain office "pc1" "e0" none ≡ ok heard
unfolding broadcast_domain flood flood_loop flood_step enqueue exits exits_over admit ingress
    port_count cable_ends flood_fuel carries_vlan switches_frames peer peer_of link_on
pc1_heard = refl

broadcast_domain-exact_example : (elem pc2_port heard ≡ true) ↔ (
    Arrives office 10 (entered ∷ []) origin pc2_port
    × (elem pc2_port origin ≡ false)
    × ((device : SimDevice) × LetsIn office 10 pc2_port device))
broadcast_domain-exact_example =
    broadcast_domain-exact office "pc1" "e0" entered 10 heard pc2_port cable_of_pc1 entered-IsAccess
      pc1_heard

abbrev office_subnet : Ipv4Network
office_subnet = record { network_address = 167772160; prefixlen = 24 }

pc1_address : parse_address "10.0.0.11" ≡ ok 167772171
unfolding parse_address split
pc1_address = refl

pc1_network : network pc1_port ≡ ok (some office_subnet)
unfolding network parse_network parse_address split
pc1_network = refl
