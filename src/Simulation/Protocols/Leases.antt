-- ===== src/Simulation/Protocols/Leases.antt =====
-- What a successful `dhcp` means.
use networkbasicswebsite.Prelude
use networkbasicswebsite.Prelude.{
  ℕ, ◌≡◌, ◌≢◌, refl, sym, inl, inr, String, Bool, true, false, not, List, [], ◌∷◌, Option, none,
  some, arith, string_eq, nat_eq, pair_eq, lookup, values, Option-cases, Bool-cases, Result-cases,
  required, Result, ok, raise, Ends, Ends-bind, Ends-if, Ends-option, Ends-of_ne, if◌then◌else◌,
  ◌==◌, ◌^◌, ◌+◌, ltb, elem, value_error,
}
use networkbasicswebsite.Text.{present, concat}
use networkbasicswebsite.Ipv4.{Ipv4Network, parse_address, parse_network, contains, str_address}
use networkbasicswebsite.Ipv4.Laws.{parse_address-Ends, parse_network-Ends}
use networkbasicswebsite.Config.{DhcpPool}
use networkbasicswebsite.Simulation.Network.{SimInterface, SimDevice, Network, broadcast_domain}
use networkbasicswebsite.Simulation.Network.FloodEnds.{flood-ne-diverged}
use networkbasicswebsite.Simulation.Forwarding.{lift}
use networkbasicswebsite.Simulation.Forwarding.Safe.{
  IsSafe, lift-IsSafe, bind-IsSafe, trace_add-IsSafe,
}
use networkbasicswebsite.Simulation.Forwarding.Steps.{then-IsSafe, lifted-IsSafe}
use networkbasicswebsite.Simulation.Protocols.Dhcp.{
  serves, first_pool, pools_on, first_server, find_dhcp_pool, device_ids, next_address,
  skip_excluded, offer_address, address_inside, pool_server_address, trace_discover, trace_offer,
  trace_dhcp_request, trace_ack, dhcp_lease, first_enabled, dhcp_over, dhcp, client_vlan,
}
use networkbasicswebsite.Simulation.Protocols.Served.{
  IsFirstUp, first_enabled-IsFirstUp, IsInReach, find_dhcp_pool-IsInReach,
}
use networkbasicswebsite.Simulation.Protocols.Offer.{IsStart, Offered, offer_address_bounds}
use networkbasicswebsite.Simulation.Protocols.Reported.{IsReported, succeeded-IsSafe, failed-IsSafe}

serves-Ends : (n : Ipv4Network) (ports : List SimInterface) → Ends (serves n ports)
unfolding serves
serves-Ends n [] = tt
serves-Ends n (port ∷ rest) =
    let later = serves-Ends n rest in
    Ends-if port.enabled _ _
      (Ends-option (present port.ip) (serves n rest)
        (λ ip.
          Prelude.◌>>=◌ (parse_address ip) λ a. if contains n a then ok true else serves n rest)
        later
        (λ ip.
          Ends-bind (parse_address ip) _ (parse_address-Ends ip)
            (λ a. Ends-if (contains n a) _ _ tt later)))
      later

first_pool-Ends :
    (ports : List SimInterface) (pools : List DhcpPool) → Ends (first_pool ports pools)
unfolding first_pool
first_pool-Ends ports [] = tt
first_pool-Ends ports (pool ∷ rest) =
    let later = first_pool-Ends ports rest in
    elim (Result-cases (parse_network pool.network pool.mask)) [
      | inr (exn, e) ↦ rw (e, first_pool) later
      | inl (n, e) ↦
          rw (e, first_pool)
            (Ends-bind (serves n ports) _ (serves-Ends n ports)
              (λ found. Ends-if found _ _ tt later))
    ]

pools_on-Ends : (device : Option SimDevice) → Ends (pools_on device)
pools_on-Ends none = tt
pools_on-Ends (some device) =
    Ends-bind (first_pool (values device.interfaces) device.config.dhcp_pools) _
      (first_pool-Ends (values device.interfaces) device.config.dhcp_pools)
      (λ found. Ends-option found (ok none) (λ pool. ok (some (device, pool))) tt (λ pool. tt))

first_server-Ends : (net : Network) (ids : List String) → Ends (first_server net ids)
unfolding first_server
first_server-Ends net [] = tt
first_server-Ends net (id ∷ rest) =
    Ends-bind (pools_on (lookup id net.devices)) _ (pools_on-Ends (lookup id net.devices)) (λ found.
      Ends-option found (first_server net rest) (λ answer. ok (some answer))
        (first_server-Ends net rest) (λ answer. tt))

find_dhcp_pool-Ends :
    (order : List String → List String) (net : Network) (client : SimDevice)
    (interface : SimInterface)
    → Ends (find_dhcp_pool order net client interface)
unfolding find_dhcp_pool broadcast_domain
find_dhcp_pool-Ends order net client interface =
    Ends-bind (broadcast_domain net client.id interface.name (some (client_vlan interface))) _
      (Ends-of_ne _ (flood-ne-diverged net _ _ _))
      (λ domain. first_server-Ends net (order (device_ids domain)))

next_address-Ends : (address : ℕ) → Ends (next_address address)
unfolding next_address
next_address-Ends address = Ends-if (ltb (address + 1) (2 ^ 32)) _ _ tt tt

skip_excluded-Ends : (first : ℕ) (excluded : Option String) → Ends (skip_excluded first excluded)
unfolding skip_excluded
skip_excluded-Ends first none = tt
skip_excluded-Ends first (some last) =
    Ends-bind (parse_address last) _ (parse_address-Ends last)
      (λ a. Ends-bind (next_address a) _ (next_address-Ends a) (λ behind. tt))

offer_address-Ends : (pool : DhcpPool) → Ends (offer_address pool)
unfolding offer_address
offer_address-Ends pool =
    Ends-bind (parse_network pool.network pool.mask) _ (parse_network-Ends pool.network pool.mask)
      (λ n.
        Ends-bind (next_address n.network_address) _ (next_address-Ends n.network_address) (λ first.
          Ends-bind (skip_excluded first (present pool.excluded_end)) _
            (skip_excluded-Ends first (present pool.excluded_end)) (λ start. tt)))

address_inside-Ends : (n : Ipv4Network) (ports : List SimInterface) → Ends (address_inside n ports)
unfolding address_inside
address_inside-Ends n [] = tt
address_inside-Ends n (port ∷ rest) =
    let later = address_inside-Ends n rest in
    Ends-option (present port.ip) (address_inside n rest)
      (λ ip.
        Prelude.◌>>=◌ (parse_address ip)
          λ a. if contains n a then ok port.ip else address_inside n rest)
      later
      (λ ip.
        Ends-bind (parse_address ip) _ (parse_address-Ends ip)
          (λ a. Ends-if (contains n a) _ _ tt later))

pool_server_address-Ends :
    (server : SimDevice) (pool : DhcpPool) → Ends (pool_server_address server pool)
unfolding pool_server_address
pool_server_address-Ends server pool =
    Ends-bind (parse_network pool.network pool.mask) _ (parse_network-Ends pool.network pool.mask)
      (λ n. address_inside-Ends n (values server.interfaces))

-- The client's first interface that is up reached, in its VLAN, a server of the pool; the address is
-- the least free one of the search in the pool, or the search's start; and the summary tells of it.
pub record IsLeased (order : List String → List String) (net : Network) (source_id summary : String)
    : Type 0 where
  pub client : SimDevice
  pub known : lookup source_id net.devices ≡ some client
  pub interface : SimInterface
  pub up : IsFirstUp (values client.interfaces) interface
  pub server : SimDevice
  pub pool : DhcpPool
  pub reach : IsInReach order net client interface server pool
  pub address : ℕ
  pub n : Ipv4Network
  pub start : ℕ
  pub reads : parse_network pool.network pool.mask ≡ ok n
  pub starts : IsStart pool n start
  pub offered : Offered pool n start address
  pub told :
      summary
      ≡ concat (client.name ∷ " leased " ∷ str_address address ∷ " from " ∷ server.name ∷ [])

IsLeased-found :
    (order : List String → List String) (net : Network) (source_id : String) (client : SimDevice)
    (interface : SimInterface) (server : SimDevice) (pool : DhcpPool) (address : ℕ)
    → lookup source_id net.devices ≡ some client
    → first_enabled (values client.interfaces) ≡ some interface
    → find_dhcp_pool order net client interface ≡ ok (some (server, pool))
    → offer_address pool ≡ ok address
    → IsLeased order net source_id
        (concat (client.name ∷ " leased " ∷ str_address address ∷ " from " ∷ server.name ∷ []))
IsLeased-found order net source_id client interface server pool address known up found offered =
    let (n, start, reads, starts, bounds) = offer_address_bounds pool address offered in
    record {
      client = client;
      known = known;
      interface = interface;
      up = first_enabled-IsFirstUp (values client.interfaces) interface up;
      server = server;
      pool = pool;
      reach = find_dhcp_pool-IsInReach order net client interface server pool found;
      address = address;
      n = n;
      start = start;
      reads = reads;
      starts = starts;
      offered = bounds;
      told = refl;
    }

module _ (order : List String → List String) (net : Network) (source_id : String) where
  abbrev Leased : String → Type 0
  Leased = IsLeased order net source_id

  dhcp_lease-IsSafe :
      (client : SimDevice) (interface : SimInterface) (answer : Option (SimDevice × DhcpPool))
      → lookup source_id net.devices ≡ some client
      → first_enabled (values client.interfaces) ≡ some interface
      → find_dhcp_pool order net client interface ≡ ok answer
      → IsSafe net (IsReported Leased) (dhcp_lease client interface answer)
  unfolding dhcp_lease trace_offer trace_dhcp_request trace_ack
  dhcp_lease-IsSafe client interface none known up found = failed-IsSafe net Leased "DHCP" _ _ _
  dhcp_lease-IsSafe client interface (some (server, pool)) known up found =
      bind-IsSafe net (λ address. offer_address pool ≡ ok address) (IsReported Leased)
        (lift (offer_address pool)) _
        (lift-IsSafe net _ (offer_address pool) (offer_address-Ends pool) (λ address e. e))
        (λ address offered.
          lifted-IsSafe net (IsReported Leased) (pool_server_address server pool) _
            (pool_server_address-Ends server pool)
            (λ own.
              then-IsSafe net (IsReported Leased)
                (trace_offer server pool (str_address address) own) _
                (trace_add-IsSafe net _ _ _ _ _ (λ h. cc))
                (then-IsSafe net (IsReported Leased)
                  (trace_dhcp_request client interface (str_address address)) _
                  (trace_add-IsSafe net _ _ _ _ _ (λ h. cc))
                  (then-IsSafe net (IsReported Leased) (trace_ack server pool (str_address address))
                    _ (trace_add-IsSafe net _ _ _ _ _ (λ h. cc))
                    (succeeded-IsSafe net Leased "DHCP" _ (
                      IsLeased-found order net source_id client interface server pool address known
                        up found offered))))))

  pub dhcp-IsSafe :
      IsSafe net (IsReported (IsLeased order net source_id)) (dhcp order net source_id)
  unfolding dhcp dhcp_over trace_discover
  dhcp-IsSafe = elim (Option-cases (lookup source_id net.devices)) [
    | inl e ↦ rw (e, dhcp) (failed-IsSafe net Leased "DHCP" _ _ none)
    | inr (client, known) ↦ elim (Option-cases (first_enabled (values client.interfaces))) [
      | inl e ↦ rw (known, e, dhcp, dhcp_over) (failed-IsSafe net Leased "DHCP" _ _ _)
      | inr (interface, up) ↦
          rw (known, up, dhcp, dhcp_over)
            (then-IsSafe net (IsReported Leased) (trace_discover net client interface) _
              (trace_add-IsSafe net _ _ _ _ _ (λ h. cc))
              (bind-IsSafe net (λ answer. find_dhcp_pool order net client interface ≡ ok answer)
                (IsReported Leased) (lift (find_dhcp_pool order net client interface)) _
                (lift-IsSafe net _ (find_dhcp_pool order net client interface)
                  (find_dhcp_pool-Ends order net client interface) (λ answer e. e))
                (λ answer found. dhcp_lease-IsSafe client interface answer known up found)))
    ]
  ]
