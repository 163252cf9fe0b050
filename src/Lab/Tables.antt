-- ===== src/Lab/Tables.antt =====
-- The rules on static routes, VLANs, DHCP pools, device counts and cables.
use networkbasicswebsite.Prelude.{
  ℕ, String, Bool, true, false, not, ◌&&◌, ◌||◌, List, [], ◌∷◌, Option, none, some, ltb,
  if◌then◌else◌, ◌==◌, nat_eq, string_eq, option_eq, values, length, keep, map, Result, ok, raise,
}
use networkbasicswebsite.Text.{concat, str, join, present}
use networkbasicswebsite.Ipv4.{Ipv4Network, parse_network, network_beq, str_network}
use networkbasicswebsite.Devices.{device_value, cable_value}
use networkbasicswebsite.Config.{SwitchportMode, access, trunk, StaticRoute, DhcpPool}
use networkbasicswebsite.Simulation.Network.{SimInterface, SimDevice, SimLink, usable, Network}
use networkbasicswebsite.Lab.Find.{
  Verdict, passes, fails, missing, find_device, or_word, without_underscores,
}
use networkbasicswebsite.Lab.Settings.{of_device, of_interface, with_subnet}

abbrev pub via_text : Option String → String
via_text next_hop = elim (present next_hop) [ none ↦ "" | some hop ↦ concat (" via " ∷ hop ∷ []) ]

-- The verdict on the first route to the wanted network.
abbrev pub hop_verdict : String → Option String → StaticRoute → Verdict
hop_verdict summary next_hop route = elim (present next_hop) [
  | none ↦ passes summary none
  | some hop ↦
      if route.next_hop == some hop
      then passes summary none
      else fails summary
          (concat ("The route points at " ∷ or_word "no next hop" route.next_hop ∷ "." ∷ []))
]

-- The loop over the routes; a route that cannot be read is passed over.
unfoldable pub route_to : Ipv4Network → List StaticRoute → Option StaticRoute
route_to wanted [] = none
route_to wanted (route ∷ rest) =
    let later = route_to wanted rest in
    elim (parse_network route.network route.mask) [
      | raise _ ↦ later
      | ok configured ↦ if network_beq configured wanted then some route else later
    ]

abbrev pub route_text : StaticRoute → String
route_text route = concat (route.network ∷ "/" ∷ route.mask ∷ [])

abbrev pub no_route_verdict : String → SimDevice → List StaticRoute → Verdict
no_route_verdict summary device [] =
    fails summary (concat (device.name ∷ " has no static routes configured." ∷ []))
no_route_verdict summary device (route ∷ rest) =
    fails summary
      (concat ("Its routes are: " ∷ join ", " (map route_text (route ∷ rest)) ∷ "." ∷ []))

abbrev pub route_verdict : String → Option String → SimDevice → Option StaticRoute → Verdict
route_verdict summary next_hop device none =
    no_route_verdict summary device device.config.static_routes
route_verdict summary next_hop device (some route) = hop_verdict summary next_hop route

-- `_check_static_route`
unfoldable pub check_static_route :
    (String → String) → Network → String → String → Option String → Result Verdict
check_static_route lower net reference network next_hop = of_device lower net reference λ device.
    with_subnet network λ wanted. ok (
      route_verdict
        (concat (
          reference
          ∷ " must have a static route to "
          ∷ str_network wanted
          ∷ via_text next_hop
          ∷ []))
        next_hop device (route_to wanted device.config.static_routes))

abbrev pub mode_text : Option SwitchportMode → String
mode_text none = "not configured as a switchport"
mode_text (some access) = "access"
mode_text (some trunk) = "trunk"

abbrev pub is_access : Option SwitchportMode → Bool
is_access (some access) = true
is_access _ = false

abbrev pub vlan_verdict : String → ℕ → SimInterface → Verdict
vlan_verdict summary vlan port =
    if not (is_access port.switchport_mode)
    then fails summary (concat ("The port is " ∷ mode_text port.switchport_mode ∷ "." ∷ []))
    else if port.access_vlan == vlan
    then passes summary none
    else fails summary (concat ("It is in VLAN " ∷ str port.access_vlan ∷ "." ∷ []))

-- `_check_vlan`
unfoldable pub check_vlan : (String → String) → Network → String → String → ℕ → Result Verdict
check_vlan lower net reference name vlan = of_device lower net reference λ device.
    let summary =
      concat (reference ∷ " " ∷ name ∷ " must be an access port in VLAN " ∷ str vlan ∷ []) in
    ok (of_interface lower net device name summary (vlan_verdict summary vlan))

-- The loop over the pools.
unfoldable pub pool_for : Ipv4Network → List DhcpPool → Option DhcpPool
pool_for wanted [] = none
pool_for wanted (pool ∷ rest) =
    let later = pool_for wanted rest in
    elim (parse_network pool.network pool.mask) [
      | raise _ ↦ later
      | ok configured ↦ if network_beq configured wanted then some pool else later
    ]

abbrev pub no_pool_verdict : String → SimDevice → List DhcpPool → Verdict
no_pool_verdict summary device [] =
    fails summary (concat (device.name ∷ " has no DHCP pools configured." ∷ []))
no_pool_verdict summary device (pool ∷ rest) = fails summary (
    concat
      ("Its pools are: " ∷ join ", " (map (λ (p : DhcpPool). p.name) (pool ∷ rest)) ∷ "." ∷ []))

abbrev pub pool_verdict : String → Ipv4Network → SimDevice → Option DhcpPool → Verdict
pool_verdict summary wanted device none = no_pool_verdict summary device device.config.dhcp_pools
pool_verdict summary wanted device (some pool) =
    passes summary
      (some (concat ("Pool '" ∷ pool.name ∷ "' covers " ∷ str_network wanted ∷ "." ∷ [])))

-- `_check_dhcp_pool`
unfoldable pub check_dhcp_pool : (String → String) → Network → String → String → Result Verdict
check_dhcp_pool lower net reference network = of_device lower net reference λ device.
    with_subnet network λ wanted. ok (
      pool_verdict (concat (reference ∷ " must serve DHCP for " ∷ str_network wanted ∷ [])) wanted
        device (pool_for wanted device.config.dhcp_pools))

abbrev pub of_kind : String → SimDevice → Bool
of_kind kind device = device_value device.kind == kind

unfoldable pub kind_count : String → Network → ℕ
kind_count kind net = length (keep (of_kind kind) (values net.devices))

abbrev pub bound_text : ℕ → Option ℕ → String
bound_text minimum none = concat ("at least " ∷ str minimum ∷ [])
bound_text minimum (some maximum) = concat ("between " ∷ str minimum ∷ " and " ∷ str maximum ∷ [])

abbrev pub exceeds : Option ℕ → ℕ → Bool
exceeds none found = false
exceeds (some maximum) found = ltb maximum found

abbrev pub count_verdict : String → ℕ → ℕ → Option ℕ → Verdict
count_verdict summary found minimum maximum =
    if ltb found minimum
    then fails summary (concat ("There are " ∷ str found ∷ "." ∷ []))
    else if exceeds maximum found
    then fails summary (concat ("There are " ∷ str found ∷ ", which is more than needed." ∷ []))
    else passes summary (some (concat ("Found " ∷ str found ∷ "." ∷ [])))

-- `_check_device_count`
unfoldable pub check_device_count : Network → String → ℕ → Option ℕ → Verdict
check_device_count net kind minimum maximum =
    count_verdict
      (concat (
        "The network must contain "
        ∷ bound_text minimum maximum
        ∷ " "
        ∷ without_underscores kind
        ∷ " device(s)"
        ∷ []))
      (kind_count kind net) minimum maximum

-- `{link.a_device, link.b_device} == {source.id, destination.id}`
abbrev pub joins : String → String → SimLink → Bool
joins source destination link =
    link.a_device == source && link.b_device == destination
    || link.a_device == destination && link.b_device == source

unfoldable pub first_usable : List SimLink → Option SimLink
first_usable [] = none
first_usable (link ∷ rest) =
    let later = first_usable rest in if usable link then some link else later

abbrev pub broken_text : SimLink → String
broken_text link =
    if not link.enabled
    then "The cable is there but the link is disabled."
    else concat (
        "The cable is a "
        ∷ without_underscores (cable_value link.cable)
        ∷ ", which is the wrong type here."
        ∷ [])

abbrev pub usable_verdict : String → SimLink → Option SimLink → Verdict
usable_verdict summary broken none = fails summary (broken_text broken)
usable_verdict summary broken (some link) = passes summary (
    some (
      concat ("Connected with a " ∷ without_underscores (cable_value link.cable) ∷ " cable." ∷ [])))

abbrev pub link_verdict : String → List SimLink → Verdict
link_verdict summary [] = fails summary "There is no cable between them."
link_verdict summary (link ∷ rest) = usable_verdict summary link (first_usable (link ∷ rest))

-- `_check_link`
unfoldable pub check_link_rule : (String → String) → Network → String → String → Verdict
check_link_rule lower net source destination = elim (find_device lower net source) [
  | none ↦ missing source
  | some a ↦ elim (find_device lower net destination) [
    | none ↦ missing destination
    | some b ↦
        link_verdict (concat (source ∷ " must be cabled to " ∷ destination ∷ []))
          (keep (joins a.id b.id) (values net.links))
  ]
]
