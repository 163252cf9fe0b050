-- ===== src/Simulation/Forwarding/Deliver.antt =====
-- The walk: `deliver` and `_traverse_switches`.
use networkbasicswebsite.Prelude.{
  ℕ, zero, suc, ◌+◌, ◌-◌, String, Bool, true, false, not, ◌&&◌, List, [], ◌∷◌, Option, none, some,
  leb, if◌then◌else◌, ◌==◌, string_eq, elem, length, lookup, values, raise, diverged, required,
}
use networkbasicswebsite.Text.{concat, present, str, is_some}
use networkbasicswebsite.Simulation.Trace.{EventKind, no_frame, no_extra}
use networkbasicswebsite.Simulation.Network.{
  Port, SimInterface, SimDevice, routes_ip, switches_frames, is_endpoint, owns_address, Network,
  peer_of, flood_into,
}
use networkbasicswebsite.Simulation.Forwarding.Run.{
  M, pure, lift, ◌>>=◌, ◌>>◌, trace_add, trace_fail,
}
use networkbasicswebsite.Simulation.Forwarding.Arp.{link_id, egress_vlan, resolve_arp}
use networkbasicswebsite.Simulation.Forwarding.Egress.{Egress, choose_egress}

abbrev pub default_ttl : ℕ
default_ttl = 64

abbrev pub max_hops : ℕ
max_hops = 16

pub record DeliveryOutcome : Type 0 where
  pub delivered : Bool
  pub reason : Option String
  pub hint : Option String
  pub hops : ℕ
  pub final_device : Option String

-- `DeliveryOutcome(delivered=False, …)`
abbrev pub undelivered : String → Option String → ℕ → Option String → DeliveryOutcome
undelivered reason hint hops final_device = record {
  delivered = false;
  reason = some reason;
  hint = hint;
  hops = hops;
  final_device = final_device;
}

-- The port with this MAC among the flooded ones.
abbrev pub has_mac : Option SimDevice → String → String → Bool
has_mac none interface mac = false
has_mac (some device) interface mac = elim (lookup interface device.interfaces) [
  | none ↦ false
  | some port ↦ port.mac == mac
]

unfoldable pub port_with_mac : Network → String → List Port → Option Port
port_with_mac net mac [] = none
port_with_mac net mac ((device_id, interface) ∷ rest) =
    if has_mac (lookup device_id net.devices) interface mac
    then some (device_id, interface)
    else port_with_mac net mac rest

-- `port.access_vlan if port and port.switchport_mode else None`
abbrev pub port_vlan : Option SimInterface → Option ℕ
port_vlan none = none
port_vlan (some port) = egress_vlan port

abbrev vlan_words : Option ℕ → String
vlan_words none = ""
vlan_words (some vlan) = concat (" in VLAN " ∷ str vlan ∷ [])

unfoldable pub trace_switch : SimDevice → String → Option ℕ → String → M (Unit {0})
trace_switch device interface vlan mac =
    trace_add EventKind.switch_forward device.id device.name
      (concat ("Switching frame toward " ∷ mac ∷ []))
      (record no_extra {
        interface = some interface;
        detail = some (concat ("Received on " ∷ interface ∷ vlan_words vlan ∷ []));
      })

unfoldable pub trace_no_port : SimDevice → String → String → M (Unit {0})
trace_no_port device interface mac =
    trace_fail EventKind.drop device.id device.name (concat ("No port has " ∷ mac ∷ []))
      (some (
        concat (
          "The destination is not reachable in this VLAN. Check that "
          ∷ "both ports are in the same VLAN and that the link is up." ∷ [])))
      (some interface)

-- One switch: the next port on the way, or `none` if no port has the MAC.
unfoldable pub switch_step : Network → SimDevice → Port → String → M (Option Port)
switch_step net device (device_id, interface) mac = do
  let vlan = port_vlan (lookup interface device.interfaces)
  trace_switch device interface vlan mac
  flooded ← lift (flood_into net device_id interface vlan)
  elim (port_with_mac net mac flooded) [
    | some target ↦ pure (some target)
    | none ↦ (do trace_no_port device interface mac; pure none)
  ]

abbrev pub go_on : (Port → M (Option String)) → Option Port → M (Option String)
go_on walk none = pure none
go_on walk (some target) = walk target

-- The `while` loop: each round adds a device of the network to `seen`, so the number of devices
-- bounds the rounds (module Walk).
unfoldable pub traverse : ℕ → Network → List String → String → Port → M (Option String)
traverse zero net seen mac p = lift (raise diverged)
traverse (suc fuel) net seen mac p =
    if elem p.0 seen then pure (some p.0) else elim (lookup p.0 net.devices) [
      | none ↦ pure none
      | some device ↦
          if switches_frames device
          then (do
            next ← switch_step net device p mac
            go_on (traverse fuel net (p.0 ∷ seen) mac) next)
          else pure (some p.0)
    ]

-- `_traverse_switches`
unfoldable pub traverse_switches : Network → Port → String → M (Option String)
traverse_switches net p mac = traverse (suc (length net.devices)) net [] mac p

-- `_forwarding_hint`
unfoldable pub forwarding_hint : SimDevice → String → String
forwarding_hint device destination =
    if is_endpoint device && not (is_some (present device.config.default_gateway))
    then concat (
        device.name ∷ " has no default gateway, so it cannot reach anything "
        ∷ "outside its own subnet." ∷ [])
    else if routes_ip device
    then concat (
        "Add a route on " ∷ device.name ∷ " for " ∷ destination ∷ ", or a default route "
        ∷ "pointing at the next router." ∷ [])
    else concat ("Check the default gateway configured on " ∷ device.name ∷ "." ∷ [])

-- What a packet carries from hop to hop.
pub record Packet : Type 0 where
  pub source_ip : Option String
  pub destination_ip : String
  pub protocol : String
  pub payload : String

abbrev or_nothing : String → Option String
or_nothing payload = if payload == "" then none else some payload

unfoldable pub trace_deliver : Packet → SimDevice → ℕ → M (Unit {0})
trace_deliver packet current ttl =
    trace_add EventKind.deliver current.id current.name
      (concat (packet.protocol ∷ " delivered to " ∷ packet.destination_ip ∷ []))
      (record no_extra {
        detail = or_nothing packet.payload;
        frame = some (record no_frame {
          source_ip = packet.source_ip;
          destination_ip = some packet.destination_ip;
          protocol = some packet.protocol;
          ttl = some ttl;
        });
      })

unfoldable pub trace_forward :
    Network → Packet → SimDevice → SimInterface → String → String → Port → ℕ → M (Unit {0})
trace_forward net packet current egress next_hop mac peer ttl =
    trace_add EventKind.forward current.id current.name
      (concat (packet.protocol ∷ " out " ∷ egress.name ∷ " toward " ∷ next_hop ∷ []))
      (record no_extra {
        interface = some egress.name;
        link_id = link_id net current.id egress.name;
        to_device_id = some peer.0;
        to_interface = some peer.1;
        frame = some (record no_frame {
          source_mac = some egress.mac;
          destination_mac = some mac;
          source_ip = packet.source_ip;
          destination_ip = some packet.destination_ip;
          protocol = some packet.protocol;
          ttl = some ttl;
        });
      })

-- How a hop ends: with an outcome, or at the next device with the TTL that is left.
pub data Hop : Type 0 where
  stop : DeliveryOutcome → Hop
  move : SimDevice → ℕ → Hop

-- A router that is not the destination decrements the TTL.
unfoldable pub age : Packet → SimDevice → ℕ → ℕ → M Hop
age packet next ttl hops =
    if routes_ip next && not (owns_address next packet.destination_ip)
    then (if leb (ttl - 1) 0
        then (do
          trace_fail EventKind.timeout next.id next.name "TTL expired in transit"
              (some "The packet was forwarded too many times — check for a routing loop.") none
          pure (stop (undelivered "TTL expired — the packet is looping." none hops (some next.id))))
        else pure (move next (ttl - 1)))
    else pure (move next ttl)

-- From the device where the frame landed.
unfoldable pub land : Network → Packet → SimDevice → ℕ → ℕ → Option String → M Hop
land net packet current ttl hops none =
    pure (stop (undelivered "The frame was lost in the switched path." none hops (some current.id)))
land net packet current ttl hops (some landed) = do
  next ← lift (required (lookup landed net.devices))
  age packet next ttl hops

-- Over the cable, once the MAC is known.
unfoldable pub cross :
    Network → Packet → SimDevice → ℕ → ℕ → SimInterface → String → String → Option Port → M Hop
cross net packet current ttl hops egress next_hop mac none = do
  trace_fail EventKind.drop current.id current.name
      (concat (egress.name ∷ " has no usable link" ∷ []))
      (some "The cable is missing, disabled, or of the wrong type.") (some egress.name)
  pure (
      stop (
        undelivered (concat (egress.name ∷ " on " ∷ current.name ∷ " has no usable link." ∷ []))
          none hops (some current.id)))
cross net packet current ttl hops egress next_hop mac (some peer) = do
  trace_forward net packet current egress next_hop mac peer ttl
  landed ← traverse_switches net peer mac
  land net packet current ttl hops landed

unfoldable pub send :
    Network → Packet → SimDevice → ℕ → ℕ → SimInterface → String → Option String → M Hop
send net packet current ttl hops egress next_hop none = pure (
    stop (
      undelivered
        (concat (current.name ∷ " could not resolve " ∷ next_hop ∷ " to a MAC address." ∷ []))
        (some (
          concat (
            "Check that the next device is powered, cabled with the right "
            ∷ "cable, has that address, and that its interface is up." ∷ [])))
        hops (some current.id)))
send net packet current ttl hops egress next_hop (some mac) =
    cross net packet current ttl hops egress next_hop mac (peer_of net current.id egress.name)

unfoldable pub leave : Network → Packet → SimDevice → ℕ → ℕ → Egress → M Hop
leave net packet current ttl hops none = pure (
    stop (
      undelivered (concat (current.name ∷ " could not forward the packet." ∷ []))
        (some (forwarding_hint current packet.destination_ip)) hops (some current.id)))
leave net packet current ttl hops (some (egress, next_hop)) = do
  mac ← resolve_arp net current egress next_hop
  send net packet current ttl hops egress next_hop mac

-- The body of the `while` loop; `hops` is already incremented.
unfoldable pub hop : Network → Packet → SimDevice → ℕ → ℕ → M Hop
hop net packet current ttl hops =
    if owns_address current packet.destination_ip
    then (do
      trace_deliver packet current ttl
      pure (
          stop (record {
            delivered = true;
            reason = none;
            hint = none;
            hops = hops;
            final_device = some current.id;
          })))
    else (do
      egress ← choose_egress net current packet.destination_ip
      leave net packet current ttl hops egress)

abbrev pub hop_on : (SimDevice → ℕ → M DeliveryOutcome) → Hop → M DeliveryOutcome
hop_on walk (stop outcome) = pure outcome
hop_on walk (move next ttl) = walk next ttl

-- `while hops < MAX_HOPS`, by the rounds that are left; `hops` counts those made.
unfoldable pub deliver_loop : ℕ → Network → Packet → SimDevice → ℕ → ℕ → M DeliveryOutcome
deliver_loop zero net packet current ttl hops = pure (
    undelivered "The packet exceeded the hop limit."
      (some "There is probably a routing loop between two devices.") hops none)
deliver_loop (suc left) net packet current ttl hops = do
  ended ← hop net packet current ttl (hops + 1)
  hop_on (λ next ttl'. deliver_loop left net packet next ttl' (hops + 1)) ended

-- The first interface that is up and has an address.
unfoldable pub source_interface : List SimInterface → Option SimInterface
source_interface [] = none
source_interface (port ∷ rest) =
    if port.enabled && is_some (present port.ip) then some port else source_interface rest

abbrev pub deliver_from :
    Network → SimDevice → String → String → String → Option SimInterface → M DeliveryOutcome
deliver_from net source destination_ip protocol payload none = do
  trace_fail EventKind.drop source.id source.name "No usable interface"
      (some (
        concat (
          "This device has no interface that is both configured with an "
          ∷ "IP address and enabled." ∷ [])))
      none
  pure (
      undelivered "The source has no working IP interface."
        (some "Give it an address and bring the interface up.") 0 none)
deliver_from net source destination_ip protocol payload (some port) =
    deliver_loop max_hops net
      (record {
        source_ip = port.ip;
        destination_ip = destination_ip;
        protocol = protocol;
        payload = payload;
      })
      source default_ttl 0

-- `deliver`
unfoldable pub deliver : Network → SimDevice → String → String → String → M DeliveryOutcome
deliver net source destination_ip protocol payload =
    deliver_from net source destination_ip protocol payload
      (source_interface (values source.interfaces))
