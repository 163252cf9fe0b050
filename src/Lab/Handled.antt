-- ===== src/Lab/Handled.antt =====
-- `LabGrader._check`: every handler ends, and a pass is sound.
use networkbasicswebsite.Prelude.{
  ℕ, ◌≡◌, ◌≤◌, refl, inl, inr, String, Bool, true, false, List, [], ◌∷◌, Option, none, some, arith,
  Memᴰ, Memᴰ-keep, if◌then◌else◌, ◌==◌, nat_eq, string_eq, option_eq, values, keep, Option-cases,
  Bool-cases, Result, ok, subst,
}
use networkbasicswebsite.Text.{strip}
use networkbasicswebsite.Config.{SwitchportMode, access, trunk}
use networkbasicswebsite.Simulation.Network.{SimInterface, SimDevice, SimLink, usable, Network}
use networkbasicswebsite.Simulation.Forwarding.{lift}
use networkbasicswebsite.Simulation.Forwarding.Safe.{IsSafe, pure-IsSafe, lift-IsSafe}
use networkbasicswebsite.Lab.Rules.{Check}
use networkbasicswebsite.Lab.Find.{Verdict, find_device}
use networkbasicswebsite.Lab.Settings.{
  candidates, check_interface_address, check_in_subnet, check_gateway, check_hostname,
}
use networkbasicswebsite.Lab.Tables.{
  route_to, check_static_route, is_access, vlan_verdict, check_vlan, pool_for, check_dhcp_pool,
  kind_count, count_verdict, check_device_count, joins, first_usable, usable_verdict, link_verdict,
  check_link_rule,
}
use networkbasicswebsite.Lab.Grade.{handle}
use networkbasicswebsite.Lab.Demands.{IsConfigured, IsCabled, OfDevice, Demands}
use networkbasicswebsite.Lab.Judged.{
  IsSound, IsJudged, check_ping-IsSafe, check_no_ping-IsSafe, check_dns-IsSafe, check_port-IsSafe,
  check_dhcp_lease-IsSafe,
}
use networkbasicswebsite.Lab.Sound.{
  returned-IsJudged, of_device-IsJudged, of_interface-IsSound, with_subnet-IsJudged,
  judged_fault-IsConfigured,
}
use networkbasicswebsite.Lab.Configured.{
  ports_verdict-IsJudged, route_verdict-IsSound, pool_verdict-IsSound,
}

-- A test that decides between a pass and a failure.
equal-IsJudged :
    (D : Type 0) (test : Bool) (passing failing : Verdict)
    → (test ≡ true → D)
    → failing.passed ≡ false
    → IsJudged D (if test then ok passing else ok failing)
equal-IsJudged D true passing failing h k = returned-IsJudged D passing (λ p. h refl)
equal-IsJudged D false passing failing h k =
    returned-IsJudged D failing (λ p. absurd (ground (arith, p, k)))

is_access-some : (mode : Option SwitchportMode) → is_access mode ≡ true → mode ≡ some access
is_access-some none h = cc
is_access-some (some access) h = refl
is_access-some (some trunk) h = cc

vlan_verdict-IsSound :
    (summary : String) (vlan : ℕ) (port : SimInterface)
    → IsSound
        ((port.switchport_mode ≡ some access) × (port.access_vlan ≡ vlan))
        (vlan_verdict summary vlan port)
vlan_verdict-IsSound summary vlan port p = elim (Bool-cases (is_access port.switchport_mode)) [
  | inr e ↦ absurd (ground (arith, rw (e, vlan_verdict) at p))
  | inl e ↦ elim (Bool-cases (port.access_vlan == vlan)) [
    | inr f ↦ absurd (ground (arith, rw (e, f, vlan_verdict) at p))
    | inl f ↦ (is_access-some port.switchport_mode e, (nat_eq.eqb_iff port.access_vlan vlan).0 f)
  ]
]

count_verdict-IsSound :
    (summary : String) (found minimum : ℕ) (maximum : Option ℕ)
    → IsSound
        ((minimum ≤ found) × ((m : ℕ) → maximum ≡ some m → found ≤ m))
        (count_verdict summary found minimum maximum)
count_verdict-IsSound summary found minimum none p =
    let enough : minimum ≤ found = ground (arith, p) in (enough, λ m same. cc)
count_verdict-IsSound summary found minimum (some maximum) p =
    let enough : minimum ≤ found = ground (arith, p) in
    let few : found ≤ maximum = ground (arith, p) in (enough, λ m same. ground (arith, few, same))

first_usable-found :
    (links : List SimLink) (link : SimLink)
    → first_usable links ≡ some link
    → Memᴰ link links × (usable link ≡ true)
unfolding first_usable
first_usable-found [] link h = cc
first_usable-found (first ∷ rest) link h = elim (Bool-cases (usable first)) [
  | inl e ↦
      let found : some first ≡ some link = rw (e, first_usable) at h in
      let is : first ≡ link = ground (arith, found) in
      subst (λ l. Memᴰ l (first ∷ rest) × (usable l ≡ true)) is (Memᴰ.head refl, e)
  | inr e ↦
      let (at, works) = first_usable-found rest link (rw (e, first_usable) at h) in
      (Memᴰ.tail at, works)
]

usable_verdict-IsSound :
    (summary : String) (broken : SimLink) (found : Option SimLink)
    → IsSound ((link : SimLink) × (found ≡ some link)) (usable_verdict summary broken found)
usable_verdict-IsSound summary broken none p = cc
usable_verdict-IsSound summary broken (some link) p = (link, refl)

link_verdict-IsSound :
    (summary : String) (links : List SimLink)
    → IsSound
        ((link : SimLink) × Memᴰ link links × (usable link ≡ true))
        (link_verdict summary links)
link_verdict-IsSound summary [] p = cc
link_verdict-IsSound summary (first ∷ rest) p =
    let (link, found) = usable_verdict-IsSound summary first (first_usable (first ∷ rest)) p in
    let (at, works) = first_usable-found (first ∷ rest) link found in (link, at, works)

joined_verdict-IsSound :
    (net : Network) (a b : SimDevice) (summary : String)
    → IsSound (IsCabled net a b) (link_verdict summary (keep (joins a.id b.id) (values net.links)))
joined_verdict-IsSound net a b summary p =
    let (link, at, works) =
      link_verdict-IsSound summary (keep (joins a.id b.id) (values net.links)) p in
    let (known, ends) = (Memᴰ-keep (joins a.id b.id) link (values net.links)).0 at in
    record { link = link; known = known; ends = ends; works = works }

module _ (lower : String → String) (order : List String → List String) (net : Network) where
  abbrev Sound : Check → Verdict → Type 0
  Sound check verdict = IsSound (Demands lower order net check) verdict

  check_link_rule-IsSound :
      (source destination : String)
      → Sound (Check.link_rule source destination) (check_link_rule lower net source destination)
  unfolding check_link_rule
  check_link_rule-IsSound source destination p =
      elim (Option-cases (find_device lower net source)) [
        | inl e ↦ absurd (ground (arith, rw (e, check_link_rule) at p))
        | inr (a, e) ↦ elim (Option-cases (find_device lower net destination)) [
          | inl f ↦ absurd (ground (arith, rw (e, f, check_link_rule) at p))
          | inr (b, f) ↦
              let cabled : OfDevice lower order net destination (λ d. IsCabled net a d) =
                (b, f, joined_verdict-IsSound net a b _ (rw (e, f, check_link_rule) at p)) in
              (a, e, cabled)
        ]
      ]

  judged-IsSafe :
      (check : Check) (r : Result Verdict)
      → IsJudged (Demands lower order net check) r
      → IsSafe net (Sound check) (lift r)
  judged-IsSafe check r h = lift-IsSafe net (Sound check) r h.0 h.1

  -- Every handler of `_check` ends, and its pass is sound.
  pub handle-IsSafe :
      (check : Check)
      → IsSafe net (IsSound (Demands lower order net check)) (handle lower order net check)
  unfolding handle check_interface_address check_in_subnet check_gateway check_hostname
      check_static_route check_vlan check_dhcp_pool check_device_count
  handle-IsSafe (Check.ping_rule source destination) =
      check_ping-IsSafe lower order net source destination
  handle-IsSafe (Check.no_ping_rule source destination) =
      check_no_ping-IsSafe lower order net source destination
  handle-IsSafe (Check.dns_rule source hostname) = check_dns-IsSafe lower order net source hostname
  handle-IsSafe (Check.port_rule source destination port) =
      check_port-IsSafe lower order net source destination port
  handle-IsSafe (Check.dhcp_lease_rule source) = check_dhcp_lease-IsSafe lower order net source
  handle-IsSafe (Check.interface_address_rule reference name address mask enabled) =
      judged-IsSafe (Check.interface_address_rule reference name address mask enabled) _ (
        of_device-IsJudged lower order net _ reference _ (λ device. returned-IsJudged _ _ (
          of_interface-IsSound lower order net (IsConfigured address mask enabled) device name _ _
            (λ port. judged_fault-IsConfigured address mask enabled _ port))))
  handle-IsSafe (Check.in_subnet_rule reference name network) =
      judged-IsSafe (Check.in_subnet_rule reference name network) _ (
        of_device-IsJudged lower order net _ reference _ (λ device.
          with_subnet-IsJudged _ network _
            (λ n. ports_verdict-IsJudged device _ n (candidates lower device name) _ refl)))
  handle-IsSafe (Check.gateway_rule reference gateway) =
      judged-IsSafe (Check.gateway_rule reference gateway) _ (
        of_device-IsJudged lower order net _ reference _ (λ device.
          equal-IsJudged _ (device.config.default_gateway == some gateway) _ _
            (λ e. (option_eq.eqb_iff device.config.default_gateway (some gateway)).0 e) refl))
  handle-IsSafe (Check.hostname_rule reference hostname) =
      judged-IsSafe (Check.hostname_rule reference hostname) _ (
        of_device-IsJudged lower order net _ reference _ (λ device.
          equal-IsJudged _ (lower (strip device.config.hostname) == lower (strip hostname)) _ _
            (λ e. (string_eq.eqb_iff _ _).0 e) refl))
  handle-IsSafe (Check.static_route_rule reference network next_hop) =
      judged-IsSafe (Check.static_route_rule reference network next_hop) _ (
        of_device-IsJudged lower order net _ reference _ (λ device.
          with_subnet-IsJudged _ network _ (λ n. returned-IsJudged _ _ (
            route_verdict-IsSound _ next_hop device n (route_to n device.config.static_routes)
              refl))))
  handle-IsSafe (Check.vlan_rule reference name vlan) =
      judged-IsSafe (Check.vlan_rule reference name vlan) _ (
        of_device-IsJudged lower order net _ reference _ (λ device. returned-IsJudged _ _ (
          of_interface-IsSound lower order net _ device name _ _
            (λ port. vlan_verdict-IsSound _ vlan port))))
  handle-IsSafe (Check.dhcp_pool_rule reference network) =
      judged-IsSafe (Check.dhcp_pool_rule reference network) _ (
        of_device-IsJudged lower order net _ reference _ (λ device.
          with_subnet-IsJudged _ network _ (λ n.
            returned-IsJudged _ _
              (pool_verdict-IsSound _ device n (pool_for n device.config.dhcp_pools) refl))))
  handle-IsSafe (Check.device_count_rule kind minimum maximum) =
      pure-IsSafe net (Sound (Check.device_count_rule kind minimum maximum))
        (check_device_count net kind minimum maximum)
        (count_verdict-IsSound _ (kind_count kind net) minimum maximum)
  handle-IsSafe (Check.link_rule source destination) =
      pure-IsSafe net (Sound (Check.link_rule source destination))
        (check_link_rule lower net source destination) (check_link_rule-IsSound source destination)
