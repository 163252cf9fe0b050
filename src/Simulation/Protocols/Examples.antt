-- ===== src/Simulation/Protocols/Examples.antt =====
-- Exchanges on the small networks of module Samples.
use networkbasicswebsite.Prelude.{
  ℕ, ◌≡◌, refl, String, true, false, List, [], none, some, values, Result, ok, raise, ◌≤◌, arith,
  string_eq,
}
use networkbasicswebsite.Text.{split, str}
use networkbasicswebsite.Ipv4.{
  Ipv4Network, parse_address, parse_network, contains, str_network, str_address,
}
use networkbasicswebsite.Config.{access}
use networkbasicswebsite.Simulation.Trace.{SimulationResult, add}
use networkbasicswebsite.Simulation.Network.{
  flood, flood_loop, flood_step, enqueue, exits, exits_over, admit, ingress, port_count, cable_ends,
  flood_fuel, carries_vlan, switches_frames, routes_ip, is_endpoint, peer, peer_of, link_on, Port,
  broadcast_domain, flood_into, network, first_holding, interface_holding, owns_address,
  device_owning, first_owning,
}
use networkbasicswebsite.Simulation.Network.Untagged.{IsAccess}
use networkbasicswebsite.Simulation.Forwarding.{
  trace_add, get_arp, set_arp, with_routes, get_events, ◌>>=◌, link_id, first_answer, trace_request,
  trace_reply, settle_arp, ask_arp, trace_cached, resolve_arp, local_interface, settle_egress,
  follow_route, trace_local, egress_by, choose_egress, trace_route, port_with_mac, trace_switch,
  switch_step, traverse, traverse_switches, trace_deliver, trace_forward, age, land, cross, send,
  leave, hop, deliver_loop, source_interface, deliver,
}
use networkbasicswebsite.Simulation.Forwarding.Promises.{start}
use networkbasicswebsite.Simulation.Protocols.Report.{report}
use networkbasicswebsite.Simulation.Protocols.Resolve.{
  first_address, resolve_destination, address_facing,
}
use networkbasicswebsite.Simulation.Protocols.Icmp.{
  ping, ping_target, ping_reply, ping_report, trace_ping, trace_echo,
}
use networkbasicswebsite.Simulation.Protocols.Dhcp.{
  device_ids, serves, first_pool, first_server, find_dhcp_pool, next_address, skip_excluded,
  first_free, offer_from, offer_address, address_inside, pool_server_address, dns_words,
  trace_discover, trace_offer, trace_dhcp_request, trace_ack, dhcp_lease, first_enabled, dhcp_over,
  dhcp, broadcast_address,
}
use networkbasicswebsite.Simulation.Protocols.Reported.{IsReported}
use networkbasicswebsite.Simulation.Protocols.Reaches.{PingMeans}
use networkbasicswebsite.Simulation.Protocols.Offer.{
  IsStart, Offered, offer_address_bounds, offer_address-outside,
}
use networkbasicswebsite.Simulation.Protocols.Outcomes.{
  IsLeasedInDomain, ping-IsReported, dhcp-IsReported,
}
use networkbasicswebsite.Simulation.Protocols.HostVlan.{dhcp-unserved}
use networkbasicswebsite.Simulation.Samples.{
  office, pc1, pc1_port, sw1, port_at, small_pool, full_pool, lan,
}

abbrev pub no_result : SimulationResult
no_result = record {
  success = false;
  protocol = "";
  summary = "";
  failure_reason = none;
  hint = none;
  events = [];
}

abbrev pub result_of : Result SimulationResult → SimulationResult
result_of (ok result) = result
result_of (raise exn) = no_result

abbrev pub kept : String → String
kept text = text

abbrev pub in_order : List String → List String
in_order ids = ids

abbrev pinged : SimulationResult
pinged = result_of (ping kept office "pc1" "10.0.0.12" 4 start).0

office-pings :
    ((ping kept office "pc1" "10.0.0.12" 4 start).0 ≡ ok pinged) × (pinged.success ≡ true)
unfolding flood flood_loop flood_step enqueue exits exits_over admit ingress port_count cable_ends
    flood_fuel carries_vlan switches_frames routes_ip is_endpoint peer peer_of link_on
    broadcast_domain flood_into network first_holding interface_holding owns_address link_id
    first_answer trace_request trace_reply settle_arp ask_arp trace_cached resolve_arp
    local_interface settle_egress follow_route trace_local egress_by choose_egress trace_route
    port_with_mac trace_switch switch_step traverse traverse_switches trace_deliver trace_forward
    age land cross send leave hop deliver_loop source_interface deliver trace_add get_arp set_arp
    with_routes ◌>>=◌ add split str parse_address parse_network contains str_network get_events
    report first_address resolve_destination address_facing ping ping_target ping_reply ping_report
    trace_ping trace_echo device_owning first_owning
office-pings = (refl, refl)

ping-IsReported_example : IsReported (PingMeans kept office "pc1" "10.0.0.12" 4) pinged
ping-IsReported_example = ping-IsReported kept office "pc1" "10.0.0.12" 4 pinged office-pings.0

abbrev leased : SimulationResult
leased = result_of (dhcp in_order lan "c1" start).0

lan-leases :
    ((dhcp in_order lan "c1" start).0 ≡ ok leased)
    × (leased.summary ≡ "c1 leased 10.0.0.11 from gw")
unfolding flood flood_loop flood_step enqueue exits exits_over admit ingress port_count cable_ends
    flood_fuel carries_vlan switches_frames peer peer_of link_on broadcast_domain link_id trace_add
    ◌>>=◌ add split str parse_address parse_network contains str_network get_events report
    device_ids serves first_pool first_server find_dhcp_pool next_address skip_excluded first_free
    offer_from offer_address address_inside pool_server_address dns_words trace_discover trace_offer
    trace_dhcp_request trace_ack dhcp_lease first_enabled dhcp_over dhcp str_address
lan-leases = (refl, refl)

dhcp-IsReported_example : IsReported (IsLeasedInDomain in_order lan "c1") leased
dhcp-IsReported_example = dhcp-IsReported in_order lan "c1" leased (λ ids id m. m) lan-leases.0

abbrev lan_subnet : Ipv4Network
lan_subnet = record { network_address = 167772160; prefixlen = 24 }

small-offer : offer_address small_pool ≡ ok 167772171
unfolding offer_address parse_network parse_address split next_address skip_excluded offer_from
    first_free str_address str
small-offer = refl

offer_address_bounds_example :
    (n : Ipv4Network) × (first : ℕ) × (parse_network small_pool.network small_pool.mask ≡ ok n)
    × IsStart small_pool n first
    × Offered small_pool n first 167772171
offer_address_bounds_example = offer_address_bounds small_pool 167772171 small-offer

full_pool-subnet : parse_network full_pool.network full_pool.mask ≡ ok lan_subnet
unfolding parse_network parse_address split
full_pool-subnet = refl

full_pool-last : parse_address "10.0.0.254" ≡ ok 167772414
unfolding parse_address split
full_pool-last = refl

offer_address-outside_example :
    (offer_address full_pool ≡ ok 167772415) × (broadcast_address lan_subnet ≤ 167772415)
offer_address-outside_example =
    offer_address-outside full_pool lan_subnet "10.0.0.254" 167772414 full_pool-subnet refl
      full_pool-last (omega arith) (omega arith) (omega arith)

abbrev entered : Port
entered = ("sw1", "f1")

entered-IsAccess : IsAccess office entered 10
unfolding switches_frames
entered-IsAccess = record {
  device = sw1;
  known = refl;
  switch = refl;
  port = port_at "sw1" "f1" "02:03" none (some access);
  present = refl;
  mode = refl;
  member = refl;
}

cable_of_pc1 : peer_of office "pc1" "e0" ≡ some entered
unfolding peer_of link_on peer
cable_of_pc1 = refl

pc1-up : first_enabled (values pc1.interfaces) ≡ some pc1_port
unfolding first_enabled
pc1-up = refl

dhcp-unserved_example :
    (result : SimulationResult) × ((dhcp in_order office "pc1" start).0 ≡ ok result)
    × (result.success ≡ false)
dhcp-unserved_example =
    dhcp-unserved in_order office "pc1" pc1 pc1_port entered 10 refl refl pc1-up refl cable_of_pc1
      entered-IsAccess (λ e. omega (arith, e))
