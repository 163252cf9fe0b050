-- ===== src/Simulation/Forwarding/Details.antt =====
-- The pure parts of the forwarder raise no `diverged`: egress selection and the explanations.
use networkbasicswebsite.Prelude.{
  ℕ, String, not, List, [], ◌∷◌, Option, none, some, lookup, values, ok, required, Ends, Ends-bind,
  Ends-required, Ends-option, Ends-if, string_eq,
}
use networkbasicswebsite.Ipv4.{parse_address}
use networkbasicswebsite.Ipv4.Laws.{parse_address-Ends}
use networkbasicswebsite.Simulation.Network.{
  SimInterface, SimDevice, SimLink, Route, Network, link_on, device_owning, interface_holding,
  blocked_links_near, network,
}
use networkbasicswebsite.Simulation.Network.BlockedEnds.{blocked_links_near-Ends}
use networkbasicswebsite.Simulation.Network.RoutesEnd.{network-Ends}
use networkbasicswebsite.Simulation.Forwarding.Arp.{
  down_port, down_words, blocked_detail, holder_detail, arp_failure_detail,
}
use networkbasicswebsite.Simulation.Forwarding.Egress.{
  local_interface, shut_interface, no_route_detail, interface_towards,
}

pub local_interface-Ends :
    (target : ℕ) (ports : List SimInterface) → Ends (local_interface target ports)
unfolding local_interface
local_interface-Ends target [] = tt
local_interface-Ends target (port ∷ rest) = Ends-bind (network port) _ (network-Ends port) (λ n.
    Ends-option _ _ (λ found. ok (some found)) (local_interface-Ends target rest) (λ found. tt))

shut_interface-Ends : (target : ℕ) (ports : List SimInterface) → Ends (shut_interface target ports)
unfolding shut_interface
shut_interface-Ends target [] = tt
shut_interface-Ends target (port ∷ rest) = Ends-bind (network port) _ (network-Ends port) (λ n.
    Ends-option _ _ (λ found. ok (some (port, found))) (shut_interface-Ends target rest)
      (λ found. tt))

pub no_route_detail-Ends :
    (device : SimDevice) (destination : String) → Ends (no_route_detail device destination)
unfolding no_route_detail
no_route_detail-Ends device destination =
    Ends-bind (parse_address destination) _ (parse_address-Ends destination) (λ target.
      Ends-bind (shut_interface target (values device.interfaces)) _
        (shut_interface-Ends target (values device.interfaces)) (λ shut. tt))

pub interface_towards-Ends :
    (device : SimDevice) (route : Route) (next_hop : String)
    → Ends (interface_towards device route next_hop)
unfolding interface_towards
interface_towards-Ends device route next_hop =
    Ends-option _ _ (λ port. ok (some port))
      (Ends-bind (parse_address next_hop) _ (parse_address-Ends next_hop) (λ target.
        Ends-bind (local_interface target (values device.interfaces)) _
          (local_interface-Ends target (values device.interfaces)) (λ found. tt)))
      (λ port. tt)

blocked_detail-Ends :
    (net : Network) (holder : SimDevice) (target_ip : String) (blocked : List SimLink)
    → Ends (blocked_detail net holder target_ip blocked)
unfolding blocked_detail
blocked_detail-Ends net holder target_ip [] = tt
blocked_detail-Ends net holder target_ip (link ∷ rest) =
    Ends-bind (required (lookup link.a_device net.devices)) _ (Ends-required _) (λ a.
      Ends-bind (required (lookup link.b_device net.devices)) _ (Ends-required _)
        (λ b. Ends-if (not link.enabled) _ _ tt tt))

holder_detail-Ends :
    (net : Network) (device : SimDevice) (egress : SimInterface) (target_ip : String)
    (holder : Option SimDevice)
    → Ends (holder_detail net device egress target_ip holder)
unfolding holder_detail
holder_detail-Ends net device egress target_ip none = tt
holder_detail-Ends net device egress target_ip (some holder) =
    Ends-option (down_port (interface_holding holder target_ip)) _
      (λ name. ok (down_words holder target_ip name))
      (Ends-bind (blocked_links_near net device.id egress.name) _
        (blocked_links_near-Ends net device.id egress.name)
        (λ blocked. blocked_detail-Ends net holder target_ip blocked))
      (λ name. tt)

pub arp_failure_detail-Ends :
    (net : Network) (device : SimDevice) (egress : SimInterface) (target_ip : String)
    → Ends (arp_failure_detail net device egress target_ip)
unfolding arp_failure_detail
arp_failure_detail-Ends net device egress target_ip =
    Ends-option (link_on net device.id egress.name) _ _ tt (λ link.
      Ends-if (not link.enabled) _ _ tt (
        Ends-if (not link.cable_ok) _ _ tt
          (holder_detail-Ends net device egress target_ip (device_owning net target_ip))))
