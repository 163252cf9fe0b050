-- ===== src/Simulation/Protocols/Dhcp.antt =====
-- `dhcp`: the pool that serves a segment, the address that it offers, and the four messages. A set
-- of Python is iterated in no known order: `order` is the order that it has here.
use networkbasicswebsite.Prelude.{
  ℕ, zero, suc, ◌+◌, ◌-◌, ◌^◌, String, Bool, true, false, List, [], ◌∷◌, Option, none, some, ltb,
  leb, if◌then◌else◌, ◌==◌, string_eq, elem, lookup, values, Result, ok, raise, value_error,
}
use networkbasicswebsite.Prelude
use networkbasicswebsite.Text.{concat, present, str, join}
use networkbasicswebsite.Ipv4.{
  Ipv4Network, host_size, parse_address, parse_network, contains, str_address,
}
use networkbasicswebsite.Config.{DhcpPool}
use networkbasicswebsite.Simulation.Trace.{EventKind, no_extra, no_frame, SimulationResult}
use networkbasicswebsite.Simulation.Network.{
  Port, SimInterface, SimDevice, Network, broadcast_domain,
}
use networkbasicswebsite.Simulation.Forwarding.{M, lift, ◌>>=◌, ◌>>◌, trace_add, link_id}
use networkbasicswebsite.Simulation.Protocols.Report.{succeeded, failed, unknown_source}

-- `{device_id for device_id, _ in …}`
unfoldable pub device_ids : List Port → List String
device_ids [] = []
device_ids ((device_id, interface) ∷ rest) =
    let more = device_ids rest in if elem device_id more then more else device_id ∷ more

-- One of the interfaces is up and has an address in the network.
unfoldable pub serves : Ipv4Network → List SimInterface → Result Bool
serves n [] = ok false
serves n (port ∷ rest) =
    let later = serves n rest in
    if port.enabled
    then elim (present port.ip) [
      | none ↦ later
      | some ip ↦ Prelude.◌>>=◌ (parse_address ip) λ a. if contains n a then ok true else later
    ]
    else later

-- The loop over the pools of a device; a network that cannot be read is passed over.
unfoldable pub first_pool : List SimInterface → List DhcpPool → Result (Option DhcpPool)
first_pool ports [] = ok none
first_pool ports (pool ∷ rest) =
    let later = first_pool ports rest in
    elim (parse_network pool.network pool.mask) [
      | raise _ ↦ later
      | ok n ↦ Prelude.◌>>=◌ (serves n ports) λ found. if found then ok (some pool) else later
    ]

abbrev pub pools_on : Option SimDevice → Result (Option (SimDevice × DhcpPool))
pools_on none = ok none
pools_on (some device) =
    Prelude.◌>>=◌ (first_pool (values device.interfaces) device.config.dhcp_pools)
      λ found. elim found [ none ↦ ok none | some pool ↦ ok (some (device, pool)) ]

-- The loop over the devices that the client's broadcast reaches.
unfoldable pub first_server : Network → List String → Result (Option (SimDevice × DhcpPool))
first_server net [] = ok none
first_server net (device_id ∷ rest) =
    let later = first_server net rest in
    Prelude.◌>>=◌ (pools_on (lookup device_id net.devices))
      λ found. elim found [ none ↦ later | some answer ↦ ok (some answer) ]

-- `interface.access_vlan if interface.switchport_mode else 1`
abbrev pub client_vlan : SimInterface → ℕ
client_vlan interface = elim interface.switchport_mode [ none ↦ 1 | some _ ↦ interface.access_vlan ]

-- `_find_dhcp_pool`
unfoldable pub find_dhcp_pool :
    (List String → List String)
    → Network
    → SimDevice
    → SimInterface
    → Result (Option (SimDevice × DhcpPool))
find_dhcp_pool order net client interface =
    Prelude.◌>>=◌ (broadcast_domain net client.id interface.name (some (client_vlan interface)))
      λ domain. first_server net (order (device_ids domain))

-- `address + 1`, where 255.255.255.255 has no successor
unfoldable pub next_address : ℕ → Result ℕ
next_address address = if ltb (address + 1) (2 ^ 32) then ok (address + 1) else raise value_error

-- `max(start, IPv4Address(excluded_end) + 1)`, if a range is excluded
unfoldable pub skip_excluded : ℕ → Option String → Result ℕ
skip_excluded first none = ok first
skip_excluded first (some excluded_end) = Prelude.◌>>=◌ (parse_address excluded_end) λ last.
    Prelude.◌>>=◌ (next_address last) λ behind. ok (if ltb first behind then behind else first)

-- `not gateway or str(candidate) != gateway`
abbrev pub is_gateway : Option String → ℕ → Bool
is_gateway none candidate = false
is_gateway (some gateway) candidate = str_address candidate == gateway

-- The `while` loop, by the candidates that are left below the broadcast address.
unfoldable pub first_free : ℕ → Option String → ℕ → Option ℕ
first_free zero gateway candidate = none
first_free (suc left) gateway candidate = elim (is_gateway gateway candidate) [
  | true ↦ first_free left gateway (candidate + 1)
  | false ↦ some candidate
]

-- `network.broadcast_address`
abbrev pub broadcast_address : Ipv4Network → ℕ
broadcast_address n = n.network_address + host_size n - 1

abbrev pub or_start : ℕ → Option ℕ → ℕ
or_start start none = start
or_start start (some candidate) = candidate

-- The offer of a pool whose network is read: the first free address from `start` on.
unfoldable pub offer_from : Ipv4Network → Option String → ℕ → ℕ
offer_from n gateway start = or_start start (first_free (broadcast_address n - start) gateway start)

-- `_offer_address`, as a number
unfoldable pub offer_address : DhcpPool → Result ℕ
offer_address pool = Prelude.◌>>=◌ (parse_network pool.network pool.mask) λ n.
    Prelude.◌>>=◌ (next_address n.network_address) λ first.
      Prelude.◌>>=◌ (skip_excluded first (present pool.excluded_end))
        λ start. ok (offer_from n (present pool.gateway) start)

unfoldable pub address_inside : Ipv4Network → List SimInterface → Result (Option String)
address_inside n [] = ok none
address_inside n (port ∷ rest) =
    let later = address_inside n rest in
    elim (present port.ip) [
      | none ↦ later
      | some ip ↦ Prelude.◌>>=◌ (parse_address ip) λ a. if contains n a then ok port.ip else later
    ]

-- `_pool_server_address`
unfoldable pub pool_server_address : SimDevice → DhcpPool → Result (Option String)
pool_server_address server pool =
    Prelude.◌>>=◌ (parse_network pool.network pool.mask)
      λ n. address_inside n (values server.interfaces)

abbrev gateway_words : Option String → String
gateway_words none = ""
gateway_words (some gateway) = concat (", gateway " ∷ gateway ∷ [])

unfoldable pub dns_words : List String → String
dns_words [] = ""
dns_words (server ∷ rest) = concat (", DNS " ∷ join ", " (server ∷ rest) ∷ [])

unfoldable pub trace_discover : Network → SimDevice → SimInterface → M (Unit {0})
trace_discover net client interface =
    trace_add EventKind.dhcp_discover client.id client.name "DHCP Discover (broadcast)"
      (record no_extra {
        interface = some interface.name;
        link_id = link_id net client.id interface.name;
        detail = some "The client has no address yet, so it broadcasts to 255.255.255.255.";
        frame = some (record no_frame {
          source_mac = some interface.mac;
          destination_mac = some "FF:FF:FF:FF:FF:FF";
          source_ip = some "0.0.0.0";
          destination_ip = some "255.255.255.255";
          protocol = some "DHCP";
        });
      })

unfoldable pub trace_offer : SimDevice → DhcpPool → String → Option String → M (Unit {0})
trace_offer server pool offered address =
    trace_add EventKind.dhcp_offer server.id server.name (concat ("DHCP Offer: " ∷ offered ∷ []))
      (record no_extra {
        detail = some (
            concat (
              "From pool '"
              ∷ pool.name
              ∷ "' — mask "
              ∷ pool.mask
              ∷ gateway_words (present pool.gateway)
              ∷ []));
        frame = some (record no_frame {
          source_ip = address;
          destination_ip = some "255.255.255.255";
          protocol = some "DHCP";
        });
      })

unfoldable pub trace_dhcp_request : SimDevice → SimInterface → String → M (Unit {0})
trace_dhcp_request client interface offered =
    trace_add EventKind.dhcp_request client.id client.name
      (concat ("DHCP Request for " ∷ offered ∷ []))
      (record no_extra {
        interface = some interface.name;
        detail = some "Still broadcast, so any other offering servers know it was declined.";
      })

unfoldable pub trace_ack : SimDevice → DhcpPool → String → M (Unit {0})
trace_ack server pool offered =
    trace_add EventKind.dhcp_ack server.id server.name
      (concat ("DHCP Ack — " ∷ offered ∷ " leased for " ∷ str pool.lease_hours ∷ " hours" ∷ []))
      (record no_extra {
        detail = some (
            concat (
              "Address "
              ∷ offered
              ∷ ", mask "
              ∷ pool.mask
              ∷ gateway_words (present pool.gateway)
              ∷ dns_words pool.dns_servers
              ∷ []));
      })

-- Offer, request and acknowledgement, once a pool is found.
unfoldable pub dhcp_lease :
    SimDevice → SimInterface → Option (SimDevice × DhcpPool) → M SimulationResult
dhcp_lease client interface none =
    failed "DHCP" "DHCP failed — no server responded"
      (some (
        concat (
          "No DHCP pool serving this segment answered the Discover. "
          ∷ "A client with no answer self-assigns a 169.254.x.x APIPA address." ∷ [])))
      (some (
        concat (
          "Configure a DHCP pool on the router for this subnet, and check "
          ∷ "that the client is in the same broadcast domain as the server." ∷ [])))
dhcp_lease client interface (some (server, pool)) = do
  address ← lift (offer_address pool)
  let offered = str_address address
  own ← lift (pool_server_address server pool)
  trace_offer server pool offered own
  trace_dhcp_request client interface offered
  trace_ack server pool offered
  succeeded "DHCP" (concat (client.name ∷ " leased " ∷ offered ∷ " from " ∷ server.name ∷ []))

unfoldable pub first_enabled : List SimInterface → Option SimInterface
first_enabled [] = none
first_enabled (port ∷ rest) = if port.enabled then some port else first_enabled rest

unfoldable pub dhcp_over :
    (List String → List String) → Network → SimDevice → Option SimInterface → M SimulationResult
dhcp_over order net client none =
    failed "DHCP" "DHCP failed — no interface is up"
      (some (concat ("Every interface on " ∷ client.name ∷ " is administratively down." ∷ [])))
      (some "Bring an interface up before requesting an address.")
dhcp_over order net client (some interface) = do
  trace_discover net client interface
  found ← lift (find_dhcp_pool order net client interface)
  dhcp_lease client interface found

-- `dhcp`
unfoldable pub dhcp : (List String → List String) → Network → String → M SimulationResult
dhcp order net source_id = elim (lookup source_id net.devices) [
  | none ↦ unknown_source "DHCP"
  | some client ↦ dhcp_over order net client (first_enabled (values client.interfaces))
]
