-- ===== src/Simulation/Network/Peers.antt =====
-- `_routing_peers`: routers reachable over usable links that run a shared protocol. A switch is
-- walked through and is never a peer, also if it routes.
use networkbasicswebsite.Prelude.{
  ℕ, zero, suc, String, Bool, false, not, ◌||◌, List, [], ◌∷◌, ◌++◌, Option, none, some,
  if◌then◌else◌, string_eq, elem, length, Dict, lookup, Result, ok, raise, diverged, required,
  ◌>>=◌,
}
use networkbasicswebsite.Config.{DeviceConfig}
use networkbasicswebsite.Simulation.Network.Types.{
  SimInterface, SimDevice, routes_ip, switches_frames, Network,
}
use networkbasicswebsite.Simulation.Network.Queries.{peer_of}

abbrev labelled {ℓ} : {A : Type ℓ} → String → Option A → List String → List String
labelled name none rest = rest
labelled name (some _) rest = name ∷ rest

-- The labels of the protocols that are configured.
unfoldable pub protocols_of : DeviceConfig → List String
protocols_of config =
    labelled "ospf" config.ospf (labelled "eigrp" config.eigrp (labelled "rip" config.rip []))

-- `peer_protocols & protocols`
unfoldable pub shares : List String → List String → Bool
shares [] protocols = false
shares (name ∷ rest) protocols = elem name protocols || shares rest protocols

pub record PeerState : Type 0 where
  pub seen : List String
  pub queue : List String
  pub peers : List String

-- What the loop does with a device at the far end of a cable.
unfoldable pub meet : List String → String → SimDevice → PeerState → PeerState
meet protocols id device s =
    if elem id s.seen
    then s
    else if switches_frames device
    then record { seen = id ∷ s.seen; queue = s.queue ++ id ∷ []; peers = s.peers }
    else if not (routes_ip device)
    then s
    else if shares (protocols_of device.config) protocols
    then record { seen = id ∷ s.seen; queue = s.queue ++ id ∷ []; peers = s.peers ++ id ∷ [] }
    else s

-- The body of the loop over the ports of `current`.
unfoldable pub visit_port :
    Network → List String → String → String → SimInterface → PeerState → Result PeerState
visit_port net protocols current name port s =
    if not port.enabled then ok s else elim (peer_of net current name) [
      | none ↦ ok s
      | some p ↦ do device ← required (lookup p.0 net.devices); ok (meet protocols p.0 device s)
    ]

unfoldable pub visit_ports :
    Network → List String → String → Dict String SimInterface → PeerState → Result PeerState
visit_ports net protocols current [] s = ok s
visit_ports net protocols current ((name, port) ∷ rest) s = do
  s' ← visit_port net protocols current name port s
  visit_ports net protocols current rest s'

-- One round, after `current` left the head of the queue.
unfoldable pub expand : Network → List String → String → List String → PeerState → Result PeerState
expand net protocols current rest s = do
  device ← required (lookup current net.devices)
  visit_ports net protocols current device.interfaces (record s { queue = rest })

unfoldable pub peer_loop : ℕ → Network → List String → PeerState → Result (List String)
unfolding expand
peer_loop zero net protocols s = elim s.queue [ [] ↦ ok s.peers | _ ∷ _ ↦ raise diverged ]
peer_loop (suc fuel) net protocols s = elim s.queue [
  | [] ↦ ok s.peers
  | current ∷ rest ↦ expand net protocols current rest s >>= λ s'. peer_loop fuel net protocols s'
]

-- A device enters the queue once, and only the devices of the network do, beside the first.
unfoldable pub routing_peers : Network → String → List String → Result (List String)
routing_peers net device_id protocols =
    peer_loop (suc (length net.devices)) net protocols
      (record { seen = device_id ∷ []; queue = device_id ∷ []; peers = [] })
