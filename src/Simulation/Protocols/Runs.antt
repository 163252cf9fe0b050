-- ===== src/Simulation/Protocols/Runs.antt =====
-- Requests to `run_simulation` on the document of a single host.
use networkbasicswebsite.Prelude.{
  ◌≡◌, ◌≢◌, ◌⊎◌, refl, inl, inr, String, true, false, [], ◌∷◌, Option, none, some, lookup, Result,
  ok, raise, value_error, ◌==◌, string_eq,
}
use networkbasicswebsite.Text.{split, strip}
use networkbasicswebsite.Ipv4.{parse_address}
use networkbasicswebsite.Devices.{DeviceKind, spec_for, interfaces}
use networkbasicswebsite.Config.{default_config}
use networkbasicswebsite.Topology.{obj, end, TopologyDevice}
use networkbasicswebsite.Simulation.Trace.{SimulationResult, add}
use networkbasicswebsite.Simulation.Network.{
  flood, flood_loop, flood_step, port_count, cable_ends, flood_fuel, peer_of, link_on,
  broadcast_domain, Library, Network, build_network, build_device, add_devices, add_links,
  SimDevice,
}
use networkbasicswebsite.Simulation.Forwarding.{trace_add, get_events, ◌>>=◌, link_id}
use networkbasicswebsite.Simulation.Protocols.Report.{report}
use networkbasicswebsite.Simulation.Protocols.Dhcp.{
  device_ids, first_server, find_dhcp_pool, trace_discover, dhcp_lease, first_enabled, dhcp_over,
  dhcp,
}
use networkbasicswebsite.Simulation.Protocols.Simulate.{
  Protocol, SimulationRequest, not_found, invalid, is_dhcp, has_device, simulate, run_simulation,
}
use networkbasicswebsite.Simulation.Protocols.Reported.{IsReported}
use networkbasicswebsite.Simulation.Protocols.Endpoint.{
  IsRunOn, run_simulation-Ends, run_simulation-IsReported, run_simulation-arp_raises,
}
use networkbasicswebsite.Simulation.Protocols.Outcomes.{Means}
use networkbasicswebsite.Simulation.Samples.{pc1}
use networkbasicswebsite.Simulation.Protocols.Examples.{no_result, result_of, kept, in_order}

-- A library whose digests are the texts themselves and whose configurations are all empty.
abbrev pub lib : Library
lib = record {
  sha256_hexdigest = λ text. text;
  upper = λ text. text;
  model_validate = λ config. inr default_config;
}

abbrev pub lonely : TopologyDevice
lonely = record {
  id = "pc1";
  kind = DeviceKind.pc;
  name = "pc1";
  group_id = none;
  config = obj end;
}

abbrev asked : Protocol → String → SimulationRequest
asked protocol destination = record {
  document = record { devices = lonely ∷ []; links = []; groups = [] };
  source_device_id = "pc1";
  protocol = protocol;
  destination = destination;
  port = 80;
  count = 4;
}

abbrev discover : SimulationRequest
discover = asked Protocol.dhcp_protocol ""

abbrev by_name : SimulationRequest
by_name = asked Protocol.arp_protocol " pc1 "

run_simulation-Ends_example :
    ((has_device discover.source_device_id discover.document.devices ≡ false)
      × (run_simulation lib kept in_order discover
          ≡ inl (not_found "That device is not in this topology.")))
    ⊎ ((has_device discover.source_device_id discover.document.devices ≡ true)
        × (is_dhcp discover.protocol ≡ false)
        × (strip discover.destination ≡ "")
        × (run_simulation lib kept in_order discover
            ≡ inl (invalid "A destination is required for this protocol.")))
    ⊎ ((has_device discover.source_device_id discover.document.devices ≡ true)
        × ((is_dhcp discover.protocol ≡ true) ⊎ (strip discover.destination ≢ ""))
        × IsRunOn lib kept in_order discover (run_simulation lib kept in_order discover))
run_simulation-Ends_example = run_simulation-Ends lib kept in_order discover

abbrev answer_of : {A : Type 0} → A ⊎ Result SimulationResult → SimulationResult
answer_of (inl refusal) = no_result
answer_of (inr answer) = result_of answer

abbrev unserved : SimulationResult
unserved = answer_of (run_simulation lib kept in_order discover)

discover-runs :
    (run_simulation lib kept in_order discover ≡ inr (ok unserved)) × (unserved.protocol ≡ "DHCP")
unfolding run_simulation has_device simulate build_network build_device add_devices add_links strip
    spec_for interfaces flood flood_loop flood_step port_count cable_ends flood_fuel peer_of link_on
    broadcast_domain link_id trace_add ◌>>=◌ add get_events report device_ids first_server
    find_dhcp_pool trace_discover dhcp_lease first_enabled dhcp_over dhcp
discover-runs = (refl, refl)

run_simulation-IsReported_example :
    (net : Network) × (build_network lib discover.document ≡ ok net)
    × (has_device "pc1" discover.document.devices ≡ true)
    × IsReported (Means kept in_order net "pc1" (strip "") 80 4 Protocol.dhcp_protocol) unserved
run_simulation-IsReported_example =
    run_simulation-IsReported lib kept in_order discover unserved discover-runs.0

abbrev no_network : Network
no_network = record { devices = []; links = []; port_link = [] }

abbrev built : Result Network → Network
built (ok net) = net
built (raise exn) = no_network

abbrev alone : Network
alone = built (build_network lib by_name.document)

alone-built : build_network lib by_name.document ≡ ok alone
unfolding build_network build_device add_devices add_links spec_for interfaces
alone-built = refl

abbrev owner : Option SimDevice → SimDevice
owner none = pc1
owner (some device) = device

alone-holds : lookup "pc1" alone.devices ≡ some (owner (lookup "pc1" alone.devices))
unfolding build_network build_device add_devices add_links spec_for interfaces
alone-holds = refl

by_name-listed : has_device "pc1" by_name.document.devices ≡ true
unfolding has_device
by_name-listed = refl

by_name-given : (strip " pc1 " == "") ≡ false
unfolding strip
by_name-given = refl

by_name-no_address : parse_address (strip " pc1 ") ≡ raise value_error
unfolding strip parse_address split
by_name-no_address = refl

run_simulation-arp_raises_example :
    run_simulation lib kept in_order by_name ≡ inr (raise value_error)
run_simulation-arp_raises_example =
    run_simulation-arp_raises lib kept in_order by_name alone (owner (lookup "pc1" alone.devices))
      value_error by_name-listed refl by_name-given alone-built alone-holds by_name-no_address
