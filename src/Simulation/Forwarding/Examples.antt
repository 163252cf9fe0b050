-- ===== src/Simulation/Forwarding/Examples.antt =====
-- A packet on the small network of module Samples.
use networkbasicswebsite.Prelude.{◌≡◌, ◌≢◌, refl, true, none, some, ok, raise, diverged}
use networkbasicswebsite.Text.{split, str}
use networkbasicswebsite.Ipv4.{parse_address, parse_network, contains, str_network}
use networkbasicswebsite.Simulation.Trace.{add}
use networkbasicswebsite.Simulation.Network.{
  flood, flood_loop, flood_step, enqueue, exits, exits_over, admit, ingress, port_count, cable_ends,
  flood_fuel, carries_vlan, switches_frames, routes_ip, is_endpoint, peer, peer_of, link_on,
  broadcast_domain, flood_into, network, first_holding, interface_holding, owns_address,
}
use networkbasicswebsite.Simulation.Forwarding.Run
use networkbasicswebsite.Simulation.Forwarding.Run.{Run, trace_add, get_arp, set_arp, with_routes}
use networkbasicswebsite.Simulation.Forwarding.Arp.{
  link_id, first_answer, trace_request, trace_reply, settle_arp, ask_arp, trace_cached, resolve_arp,
}
use networkbasicswebsite.Simulation.Forwarding.Egress.{
  local_interface, settle_egress, follow_route, trace_local, egress_by, choose_egress, trace_route,
}
use networkbasicswebsite.Simulation.Forwarding.Deliver.{
  DeliveryOutcome, port_with_mac, trace_switch, switch_step, traverse, traverse_switches,
  trace_deliver, trace_forward, age, land, cross, send, leave, hop, deliver_loop, source_interface,
  deliver,
}
use networkbasicswebsite.Simulation.Forwarding.Safe.{IsAnswered, IsValid}
use networkbasicswebsite.Simulation.Forwarding.Delivery.{IsHonest}
use networkbasicswebsite.Simulation.Forwarding.Promises.{
  start, start-IsValid, deliver-IsHonest, deliver-IsValid, deliver-ne-diverged, resolve_arp_sound,
  resolve_arp-IsValid,
}
use networkbasicswebsite.Simulation.Samples.{office, pc1, pc1_port}

abbrev arrival : DeliveryOutcome
arrival = record {
  delivered = true;
  reason = none;
  hint = none;
  hops = 2;
  final_device = some "pc2";
}

arp_at_pc1 : (resolve_arp office pc1 pc1_port "10.0.0.12" start).0 ≡ ok (some "02:02")
unfolding flood flood_loop flood_step enqueue exits exits_over admit ingress port_count cable_ends
    flood_fuel carries_vlan switches_frames routes_ip is_endpoint peer peer_of link_on
    broadcast_domain flood_into network first_holding interface_holding owns_address link_id
    first_answer trace_request trace_reply settle_arp ask_arp trace_cached resolve_arp trace_add
    get_arp set_arp with_routes Run.◌>>=◌ add str
arp_at_pc1 = refl

ping_arrives : (deliver office pc1 "10.0.0.12" "ICMP" "" start).0 ≡ ok arrival
unfolding flood flood_loop flood_step enqueue exits exits_over admit ingress port_count cable_ends
    flood_fuel carries_vlan switches_frames routes_ip is_endpoint peer peer_of link_on
    broadcast_domain flood_into network first_holding interface_holding owns_address link_id
    first_answer trace_request trace_reply settle_arp ask_arp trace_cached resolve_arp
    local_interface settle_egress follow_route trace_local egress_by choose_egress trace_route
    port_with_mac trace_switch switch_step traverse traverse_switches trace_deliver trace_forward
    age land cross send leave hop deliver_loop source_interface deliver trace_add get_arp set_arp
    with_routes Run.◌>>=◌ add split str parse_address parse_network contains str_network
ping_arrives = refl

deliver-IsHonest_example : IsHonest office pc1 "10.0.0.12" arrival
deliver-IsHonest_example =
    deliver-IsHonest office pc1 "10.0.0.12" "ICMP" "" start arrival (start-IsValid office)
      ping_arrives

deliver-IsValid_example : IsValid office (deliver office pc1 "10.0.0.12" "ICMP" "" start).1
deliver-IsValid_example =
    deliver-IsValid office pc1 "10.0.0.12" "ICMP" "" start (start-IsValid office)

deliver-ne-diverged_example : (deliver office pc1 "10.0.0.12" "ICMP" "" start).0 ≢ raise diverged
deliver-ne-diverged_example =
    deliver-ne-diverged office pc1 "10.0.0.12" "ICMP" "" start (start-IsValid office)

resolve_arp_sound_example : IsAnswered office "pc1" "10.0.0.12" "02:02"
resolve_arp_sound_example =
    resolve_arp_sound office pc1 pc1_port "10.0.0.12" start "02:02" (start-IsValid office)
      arp_at_pc1

resolve_arp-IsValid_example :
    IsValid office (resolve_arp office pc1 pc1_port "10.0.0.12" start).1
    × ((resolve_arp office pc1 pc1_port "10.0.0.12" start).0 ≢ raise diverged)
resolve_arp-IsValid_example =
    resolve_arp-IsValid office pc1 pc1_port "10.0.0.12" start (start-IsValid office)
