-- ===== src/Simulation/Protocols/Served.antt =====
-- What `_find_dhcp_pool` finds: a pool of a device that the client's broadcast reaches.
use networkbasicswebsite.Prelude
use networkbasicswebsite.Prelude.{
  ℕ, ◌≡◌, refl, ap, ◌∙◌, inl, inr, ◌⊎◌, String, Bool, true, false, List, [], ◌∷◌, Option, none,
  some, arith, string_eq, lookup, values, Option-cases, Bool-cases, Result-cases, ok, raise, elem,
  Memᴰ, subst, >>=-eq-ok, if◌then◌else◌,
}
use mathlib.Core.List.Memᴰ
use networkbasicswebsite.Text.{present}
use networkbasicswebsite.Ipv4.{Ipv4Network, parse_address, parse_network, contains}
use networkbasicswebsite.Config.{SwitchportMode, DhcpPool}
use networkbasicswebsite.Simulation.Network.{
  Port, SimInterface, SimDevice, Network, broadcast_domain,
}
use networkbasicswebsite.Simulation.Protocols.Dhcp.{
  device_ids, serves, first_pool, pools_on, first_server, client_vlan, find_dhcp_pool,
  first_enabled,
}

-- A port that is up has an address in the network.
pub record IsServed (n : Ipv4Network) (ports : List SimInterface) : Type 0 where
  pub port : SimInterface
  pub on : Memᴰ port ports
  pub up : port.enabled ≡ true
  pub ip : String
  pub has_ip : present port.ip ≡ some ip
  pub address : ℕ
  pub reads : parse_address ip ≡ ok address
  pub inside : contains n address ≡ true

-- The device has this pool, whose network can be read and contains the address of a port of the
-- device that is up.
pub record IsServing (server : SimDevice) (pool : DhcpPool) : Type 0 where
  pub configured : Memᴰ pool server.config.dhcp_pools
  pub n : Ipv4Network
  pub reads : parse_network pool.network pool.mask ≡ ok n
  pub served : IsServed n (values server.interfaces)

serves-IsServed :
    (n : Ipv4Network) (ports : List SimInterface) → serves n ports ≡ ok true → IsServed n ports
unfolding serves
serves-IsServed n [] h = absurd (ground (arith, h))
serves-IsServed n (port ∷ rest) h =
    let on : serves n rest ≡ ok true → IsServed n (port ∷ rest) = λ g.
      let later = serves-IsServed n rest g in
      record {
        port = later.port;
        on = Memᴰ.tail later.on;
        up = later.up;
        ip = later.ip;
        has_ip = later.has_ip;
        address = later.address;
        reads = later.reads;
        inside = later.inside;
      } in
    elim (Bool-cases port.enabled) [
      | inr down ↦ on (rw (down, serves) at h)
      | inl up ↦ elim (Option-cases (present port.ip)) [
        | inl e ↦ on (rw (up, e, serves) at h)
        | inr (ip, e) ↦
            let g : Prelude.◌>>=◌ (parse_address ip)
                  (λ a. if contains n a then ok true else serves n rest)
                ≡ ok true =
              rw (up, e, serves) at h in
            let (a, reads, f) = >>=-eq-ok (parse_address ip) _ g in
            elim (Bool-cases (contains n a)) [
              | inr outside ↦ on (rw outside at f)
              | inl inside ↦ record {
                port = port;
                on = Memᴰ.head refl;
                up = up;
                ip = ip;
                has_ip = e;
                address = a;
                reads = reads;
                inside = inside;
              }
            ]
      ]
    ]

abbrev Found : List SimInterface → List DhcpPool → DhcpPool → Type 0
Found ports pools pool =
    Memᴰ pool pools
    × ((n : Ipv4Network) × (parse_network pool.network pool.mask ≡ ok n) × IsServed n ports)

first_pool-Found :
    (ports : List SimInterface) (pools : List DhcpPool) (pool : DhcpPool)
    → first_pool ports pools ≡ ok (some pool)
    → Found ports pools pool
unfolding first_pool
first_pool-Found ports [] pool h = absurd (ground (arith, h))
first_pool-Found ports (first ∷ rest) pool h =
    let on : first_pool ports rest ≡ ok (some pool) → Found ports (first ∷ rest) pool =
      λ g. let (at, found) = first_pool-Found ports rest pool g in (Memᴰ.tail at, found) in
    elim (Result-cases (parse_network first.network first.mask)) [
      | inr (exn, e) ↦ on (rw (e, first_pool) at h)
      | inl (n, e) ↦
          let g : Prelude.◌>>=◌ (serves n ports)
                (λ found. if found then ok (some first) else first_pool ports rest)
              ≡ ok (some pool) =
            rw (e, first_pool) at h in
          let (found, served, f) = >>=-eq-ok (serves n ports) _ g in
          elim (Bool-cases found) [
            | inr other ↦ on (rw other at f)
            | inl serving ↦
                let is : ok (some first) ≡ ok (some pool) = rw serving at f in
                let same : first ≡ pool = ground (arith, is) in
                let by : IsServed n ports = serves-IsServed n ports (rw serving at served) in
                let here : Found ports (first ∷ rest) first = (Memᴰ.head refl, (n, e, by)) in
                subst (Found ports (first ∷ rest)) same here
          ]
    ]

pools_on-IsServing :
    (found : Option SimDevice) (server : SimDevice) (pool : DhcpPool)
    → pools_on found ≡ ok (some (server, pool))
    → (found ≡ some server) × IsServing server pool
pools_on-IsServing none server pool h = absurd (ground (arith, h))
pools_on-IsServing (some device) server pool h =
    let (first, e, f) =
      >>=-eq-ok (first_pool (values device.interfaces) device.config.dhcp_pools) _ h in
    elim (Option-cases first) [
      | inl absent ↦ absurd (ground (arith, f, absent))
      | inr (found, is) ↦
          let g : ok (some (device, found)) ≡ ok (some (server, pool)) = rw is at f in
          let same : device ≡ server = ground (arith, g) in
          let same_pool : found ≡ pool = ground (arith, g) in
          let (at, (n, reads, served)) =
            first_pool-Found (values device.interfaces) device.config.dhcp_pools found
              (e ∙ ap ok is) in
          let here : IsServing device found = record {
            configured = at;
            n = n;
            reads = reads;
            served = served;
          } in
          let moved : IsServing device pool = subst (IsServing device) same_pool here in
          (ap some same, subst (λ d. IsServing d pool) same moved)
    ]

first_server-IsServing :
    (net : Network) (ids : List String) (server : SimDevice) (pool : DhcpPool)
    → first_server net ids ≡ ok (some (server, pool))
    → (id : String) × Memᴰ id ids × (lookup id net.devices ≡ some server) × IsServing server pool
unfolding first_server
first_server-IsServing net [] server pool h = absurd (ground (arith, h))
first_server-IsServing net (id ∷ rest) server pool h =
    let (found, e, f) = >>=-eq-ok (pools_on (lookup id net.devices)) _ h in
    elim (Option-cases found) [
      | inl absent ↦
          let (other, at, known, serving) =
            first_server-IsServing net rest server pool (rw absent at f) in
          (other, Memᴰ.tail at, known, serving)
      | inr (answer, is) ↦
          let g : ok (some answer) ≡ ok (some (server, pool)) = rw is at f in
          let (known, serving) =
            pools_on-IsServing (lookup id net.devices) server pool (e ∙ ap ok is ∙ g) in
          (id, Memᴰ.head refl, known, serving)
    ]

-- Each of these devices has a port in the domain.
abbrev pub AreOf : List Port → List String → Type 0
AreOf domain ids = (id : String) → Memᴰ id ids → (name : String) × Memᴰ (id, name) domain

device_ids-AreOf : (domain : List Port) → AreOf domain (device_ids domain)
unfolding device_ids
device_ids-AreOf [] id m = absurd (Memᴰ.not-nil m)
device_ids-AreOf ((device_id, interface) ∷ rest) id m =
    let on : Memᴰ id (device_ids rest)
        → (name : String) × Memᴰ (id, name) ((device_id, interface) ∷ rest) =
      λ later. let (name, at) = device_ids-AreOf rest id later in (name, Memᴰ.tail at) in
    elim (Bool-cases (elem device_id (device_ids rest))) [
      | inl known ↦ on (rw (known, device_ids) at m)
      | inr new ↦
          let m' : Memᴰ id (device_id ∷ device_ids rest) = rw (new, device_ids) at m in
          elim (Memᴰ.cases_cons m') [
            | inl here ↦ (interface, Memᴰ.head (ap (λ (d : String). (d, interface)) here))
            | inr there ↦ on there
          ]
    ]

-- A client without a switch port's settings broadcasts in VLAN 1, any other in its access VLAN.
abbrev pub IsVlanOf : SimInterface → ℕ → Type 0
IsVlanOf interface vlan =
    ((interface.switchport_mode ≡ none) × (vlan ≡ 1))
    ⊎ ((mode : SwitchportMode) × (interface.switchport_mode ≡ some mode)
        × (vlan ≡ interface.access_vlan))

client_vlan-IsVlanOf : (interface : SimInterface) → IsVlanOf interface (client_vlan interface)
client_vlan-IsVlanOf interface = elim (Option-cases interface.switchport_mode) [
  | inl e ↦ inl (e, rw e refl)
  | inr (mode, e) ↦ inr (mode, e, rw e refl)
]

-- The interface is the first that is up.
abbrev pub IsFirstUp : List SimInterface → SimInterface → Type 0
IsFirstUp [] interface = ⊥
IsFirstUp (port ∷ rest) interface =
    ((port.enabled ≡ true) × (port ≡ interface))
    ⊎ ((port.enabled ≡ false) × IsFirstUp rest interface)

pub first_enabled-IsFirstUp :
    (ports : List SimInterface) (interface : SimInterface)
    → first_enabled ports ≡ some interface
    → IsFirstUp ports interface
unfolding first_enabled
first_enabled-IsFirstUp [] interface h = cc
first_enabled-IsFirstUp (port ∷ rest) interface h = elim (Bool-cases port.enabled) [
  | inl up ↦ inl (up, ground (arith, up, h))
  | inr down ↦ inr (down, first_enabled-IsFirstUp rest interface (ground (arith, down, h)))
]

-- A device that serves the pool is among those that `order` gives for devices with a port in the
-- domain of the interface's broadcast, which is in its VLAN.
pub record IsInReach (order : List String → List String) (net : Network) (client : SimDevice)
    (interface : SimInterface) (server : SimDevice) (pool : DhcpPool) : Type 0 where
  pub vlan : ℕ
  pub own_vlan : IsVlanOf interface vlan
  pub domain : List Port
  pub flooded : broadcast_domain net client.id interface.name (some vlan) ≡ ok domain
  pub ids : List String
  pub reached : AreOf domain ids
  pub id : String
  pub asked : Memᴰ id (order ids)
  pub known : lookup id net.devices ≡ some server
  pub serving : IsServing server pool

pub find_dhcp_pool-IsInReach :
    (order : List String → List String) (net : Network) (client : SimDevice)
    (interface : SimInterface) (server : SimDevice) (pool : DhcpPool)
    → find_dhcp_pool order net client interface ≡ ok (some (server, pool))
    → IsInReach order net client interface server pool
unfolding find_dhcp_pool
find_dhcp_pool-IsInReach order net client interface server pool h =
    let vlan = client_vlan interface in
    let (domain, flooded, f) =
      >>=-eq-ok (broadcast_domain net client.id interface.name (some vlan)) _ h in
    let (id, asked, known, serving) =
      first_server-IsServing net (order (device_ids domain)) server pool f in
    record {
      vlan = vlan;
      own_vlan = client_vlan-IsVlanOf interface;
      domain = domain;
      flooded = flooded;
      ids = device_ids domain;
      reached = device_ids-AreOf domain;
      id = id;
      asked = asked;
      known = known;
      serving = serving;
    }
