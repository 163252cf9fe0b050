-- ===== src/Simulation/Network/PeersEnd.antt =====
-- `_routing_peers` ends, and what its answer holds.
use networkbasicswebsite.Prelude.{
  ℕ, zero, suc, ◌+◌, ◌≤◌, ◌≡◌, ◌≢◌, refl, ap, subst, inl, inr, String, true, false, not, List, [],
  ◌∷◌, ◌++◌, some, arith, string_eq, elem, elem-here, elem-cons, elem-append, unseen,
  unseen-cons-lt, length, length-append, length-keep, Dict, keys, lookup, Bool-cases, Option-cases,
  List-cases, Result, ok, raise, diverged, ◌>>=◌,
}
use networkbasicswebsite.Devices.{DeviceKind}
use networkbasicswebsite.Simulation.Network.Types.{
  SimInterface, SimDevice, routes_ip, switches_frames, Network,
}
use networkbasicswebsite.Simulation.Network.Queries.{peer_of}
use networkbasicswebsite.Simulation.Network.Peers.{
  protocols_of, shares, PeerState, meet, visit_port, visit_ports, expand, peer_loop, routing_peers,
}

pub elem-keys :
    (id : String) (device : SimDevice) (devices : Dict String SimDevice)
    → lookup id devices ≡ some device
    → elem id (keys devices) ≡ true
elem-keys id device [] h = cc
elem-keys id device ((other, d) ∷ rest) h =
    ground (arith, elem-keys id device rest, string_eq.eqb_iff other id, string_eq.eqb_iff id other)

pub length-keys : (devices : Dict String SimDevice) → length (keys devices) ≡ length devices
length-keys [] = refl
length-keys (d ∷ rest) = ap suc (length-keys rest)

-- No name is listed twice.
abbrev pub DistinctNames : List String → Type 0
DistinctNames [] = Unit
DistinctNames (a ∷ rest) = (elem a rest ≡ false) × DistinctNames rest

DistinctNames-snoc :
    (a : String) (names : List String)
    → elem a names ≡ false
    → DistinctNames names
    → DistinctNames (names ++ a ∷ [])
DistinctNames-snoc a [] new h = (refl, tt)
DistinctNames-snoc a (b ∷ rest) new h = ground (
  arith,
  DistinctNames-snoc a rest,
  elem-append b rest (a ∷ []),
  string_eq.eqb_iff a b,
  string_eq.eqb_iff b a,
)

-- A router of the network that runs one of the protocols and is not walked through as a switch.
pub record IsPeer (net : Network) (protocols : List String) (id : String) : Type 0 where
  pub device : SimDevice
  pub known : lookup id net.devices ≡ some device
  pub routes : routes_ip device ≡ true
  pub no_switch : switches_frames device ≡ false
  pub shared : shares (protocols_of device.config) protocols ≡ true

module _ (net : Network) (start : String) (protocols : List String) where
  abbrev work : PeerState → ℕ
  work s = length s.queue + unseen (keys net.devices) s.seen

  record Inv (s : PeerState) : Type 0 where
    sound : (id : String) → elem id s.peers ≡ true → IsPeer net protocols id
    once : DistinctNames s.peers
    marked : (id : String) → elem id s.peers ≡ true → elem id s.seen ≡ true
    begun : elem start s.seen ≡ true
    apart : elem start s.peers ≡ false

  meet-work :
      (id : String) (device : SimDevice) (s : PeerState)
      → lookup id net.devices ≡ some device
      → work (meet protocols id device s) ≤ work s
  unfolding meet
  meet-work id device s known = ground (
    arith,
    unseen-cons-lt (keys net.devices) s.seen id,
    elem-keys id device net.devices known,
    length-append s.queue (id ∷ []),
  )

  mark-Inv :
      (id : String) (queue : List String) (s : PeerState)
      → Inv s
      → Inv (record { seen = id ∷ s.seen; queue = queue; peers = s.peers })
  mark-Inv id queue s inv = record {
    sound = inv.sound;
    once = inv.once;
    marked = λ a h. elem-cons a id s.seen (inv.marked a h);
    begun = elem-cons start id s.seen inv.begun;
    apart = inv.apart;
  }

  join-Inv :
      (id : String) (queue : List String) (s : PeerState)
      → elem id s.seen ≡ false
      → IsPeer net protocols id
      → Inv s
      → Inv (record { seen = id ∷ s.seen; queue = queue; peers = s.peers ++ id ∷ [] })
  join-Inv id queue s new peer inv = record {
    sound = λ a h. elim (Bool-cases (elem a s.peers)) [
      | inl old ↦ inv.sound a old
      | inr fresh ↦ let e : a ≡ id = last a h fresh in rw e peer
    ];
    once = DistinctNames-snoc id s.peers (ground (arith, inv.marked id)) inv.once;
    marked = λ a h.
        ground (arith, inv.marked a, elem-append a s.peers (id ∷ []), string_eq.eqb_iff a id);
    begun = elem-cons start id s.seen inv.begun;
    apart = ground (
      arith,
      inv.apart,
      inv.begun,
      elem-append start s.peers (id ∷ []),
      string_eq.eqb_iff start id,
    );
  }
    where
      last : (a : String) → elem a (s.peers ++ id ∷ []) ≡ true → elem a s.peers ≡ false → a ≡ id
      last a h fresh = ground (arith, elem-append a s.peers (id ∷ []), string_eq.eqb_iff a id)

  meet-Inv :
      (id : String) (device : SimDevice) (s : PeerState)
      → lookup id net.devices ≡ some device
      → Inv s
      → Inv (meet protocols id device s)
  unfolding meet
  meet-Inv id device s known inv = elim (Bool-cases (elem id s.seen)) [
    | inl old ↦ rw old inv
    | inr new ↦ elim (Bool-cases (switches_frames device)) [
      | inl switch ↦ rw (new, switch) (mark-Inv id (s.queue ++ id ∷ []) s inv)
      | inr no_switch ↦ elim (Bool-cases (routes_ip device)) [
        | inr no_router ↦ rw (new, no_switch, no_router) inv
        | inl router ↦ elim (Bool-cases (shares (protocols_of device.config) protocols)) [
          | inr apart ↦ rw (new, no_switch, router, apart) inv
          | inl shared ↦
              let peer : IsPeer net protocols id = record {
                device = device;
                known = known;
                routes = router;
                no_switch = no_switch;
                shared = shared;
              } in
              rw (new, no_switch, router, shared) (join-Inv id (s.queue ++ id ∷ []) s new peer inv)
        ]
      ]
    ]
  ]

  -- What a part of a round keeps.
  abbrev Keeps : PeerState → Result PeerState → Type 0
  Keeps s (ok t) = (Inv s → Inv t) × (work t ≤ work s)
  Keeps s (raise e) = e ≢ diverged

  Keeps-bind :
      (s : PeerState) (r : Result PeerState) (f : PeerState → Result PeerState)
      → Keeps s r
      → ((t : PeerState) → Keeps t (f t))
      → Keeps s (r >>= f)
  Keeps-bind s (raise e) f k h = k
  Keeps-bind s (ok t) f k h = go (f t) (h t)
    where
      go : (r : Result PeerState) → Keeps t r → Keeps s r
      go (raise e) n = n
      go (ok u) n = (λ inv. n.0 (k.0 inv), omega arith)

  visit_port-Keeps :
      (current name : String) (port : SimInterface) (s : PeerState)
      → Keeps s (visit_port net protocols current name port s)
  unfolding visit_port
  visit_port-Keeps current name port s = elim (Bool-cases port.enabled) [
    | inr down ↦ rw (down, visit_port) (λ inv. inv, omega arith)
    | inl up ↦ elim (Option-cases (peer_of net current name)) [
      | inl e ↦ rw (up, e, visit_port) (λ inv. inv, omega arith)
      | inr (p, e) ↦ elim (Option-cases (lookup p.0 net.devices)) [
        | inl unknown ↦ rw (up, e, unknown, visit_port) (λ h. cc)
        | inr (device, known) ↦
            rw (up, e, known, visit_port)
              (meet-Inv p.0 device s known, meet-work p.0 device s known)
      ]
    ]
  ]

  visit_ports-Keeps :
      (current : String) (ports : Dict String SimInterface) (s : PeerState)
      → Keeps s (visit_ports net protocols current ports s)
  unfolding visit_ports
  visit_ports-Keeps current [] s = (λ inv. inv, omega arith)
  visit_ports-Keeps current ((name, port) ∷ rest) s =
      Keeps-bind s (visit_port net protocols current name port s) _
        (visit_port-Keeps current name port s) (λ t. visit_ports-Keeps current rest t)

  expand-Keeps :
      (current : String) (rest : List String) (s : PeerState)
      → Keeps (record s { queue = rest }) (expand net protocols current rest s)
  unfolding expand
  expand-Keeps current rest s = elim (Option-cases (lookup current net.devices)) [
    | inl unknown ↦ rw (unknown, expand) (λ h. cc)
    | inr (device, known) ↦
        rw (known, expand) (visit_ports-Keeps current device.interfaces (record s { queue = rest }))
  ]

  pop-Inv : (s : PeerState) (rest : List String) → Inv s → Inv (record s { queue = rest })
  pop-Inv s rest inv = record {
    sound = inv.sound;
    once = inv.once;
    marked = inv.marked;
    begun = inv.begun;
    apart = inv.apart;
  }

  -- What the loop returns: peers, or an exception of the program.
  abbrev Final : Result (List String) → Type 0
  Final (raise e) = e ≢ diverged
  Final (ok peers) =
      ((id : String) → elem id peers ≡ true → IsPeer net protocols id)
      × DistinctNames peers
      × (elem start peers ≡ false)

  peer_loop-done :
      (fuel : ℕ) (s : PeerState) → s.queue ≡ [] → peer_loop fuel net protocols s ≡ ok s.peers
  unfolding peer_loop
  peer_loop-done zero s e = ground arith
  peer_loop-done (suc fuel) s e = ground arith

  peer_loop-step :
      (fuel : ℕ) (s : PeerState) (current : String) (rest : List String)
      → s.queue ≡ current ∷ rest
      → peer_loop (suc fuel) net protocols s
        ≡ (expand net protocols current rest s >>= λ t. peer_loop fuel net protocols t)
  unfolding peer_loop
  peer_loop-step fuel s current rest e = simp (e, peer_loop)

  Final-bind :
      (s : PeerState) (r : Result PeerState) (f : PeerState → Result (List String))
      → Keeps s r
      → ((t : PeerState) → (Inv s → Inv t) → work t ≤ work s → Final (f t))
      → Final (r >>= f)
  Final-bind s (ok t) f kept h = h t kept.0 kept.1
  Final-bind s (raise e) f kept h = kept

  loop-Final :
      (fuel : ℕ) (s : PeerState) → Inv s → work s ≤ fuel → Final (peer_loop fuel net protocols s)
  loop-Final zero s inv h = elim (List-cases s.queue) [
    | inl empty ↦ rw (peer_loop-done zero s empty) (inv.sound, inv.once, inv.apart)
    | inr (current, rest, e) ↦ absurd (omega (arith, ap length e))
  ]
  loop-Final (suc fuel) s inv h = elim (List-cases s.queue) [
    | inl empty ↦ rw (peer_loop-done (suc fuel) s empty) (inv.sound, inv.once, inv.apart)
    | inr (current, rest, e) ↦
        let shorter = ap length e in
        rw (peer_loop-step fuel s current rest e) (
          Final-bind (record s { queue = rest }) (expand net protocols current rest s) _
            (expand-Keeps current rest s)
            (λ t keep small. loop-Final fuel t (keep (pop-Inv s rest inv)) (omega arith)))
  ]

  start-Inv : Inv (record { seen = start ∷ []; queue = start ∷ []; peers = [] })
  start-Inv = record {
    sound = λ id h. cc;
    once = tt;
    marked = λ id h. cc;
    begun = elem-here start start [] refl;
    apart = refl;
  }

  routing_peers-Final : Final (routing_peers net start protocols)
  unfolding routing_peers
  routing_peers-Final = loop-Final _ _ start-Inv (
      omega (
        arith,
        length-keep (λ q. not (elem q (start ∷ []))) (keys net.devices),
        length-keys net.devices,
      ))

-- The search for routing peers ends: the fuel suffices, whatever the network.
pub routing_peers-ne-diverged :
    (net : Network) (device_id : String) (protocols : List String)
    → routing_peers net device_id protocols ≢ raise diverged
routing_peers-ne-diverged net device_id protocols h =
    subst (Final net device_id protocols) h (routing_peers-Final net device_id protocols) refl

-- Every peer that `_routing_peers` returns is a device of the network that routes, is no switch, and runs one of
-- the protocols. No peer is returned twice, and the device itself is not among them.
pub routing_peers_sound :
    (net : Network) (device_id : String) (protocols peers : List String)
    → routing_peers net device_id protocols ≡ ok peers
    → ((id : String) → elem id peers ≡ true → IsPeer net protocols id)
      × DistinctNames peers
      × (elem device_id peers ≡ false)
routing_peers_sound net device_id protocols peers h =
    subst (Final net device_id protocols) h (routing_peers-Final net device_id protocols)

-- A layer 3 switch of the network is one of the kinds that route, and is among no device's routing
-- peers.
pub multilayer_switch-not-peer :
    (net : Network) (device_id : String) (protocols peers : List String) (id : String)
    (device : SimDevice)
    → routing_peers net device_id protocols ≡ ok peers
    → lookup id net.devices ≡ some device
    → device.kind ≡ DeviceKind.multilayer_switch
    → (routes_ip device ≡ true) × (elem id peers ≡ false)
unfolding routes_ip switches_frames
multilayer_switch-not-peer net device_id protocols peers id device h known kind =
    elim (Bool-cases (elem id peers)) [
      | inr absent ↦ (rw kind, absent)
      | inl listed ↦
          let peer = (routing_peers_sound net device_id protocols peers h).0 id listed in
          let same : peer.device ≡ device = ground (arith, peer.known) in
          absurd (ground (arith, ap (λ (d : SimDevice). d.kind) same, peer.no_switch))
    ]
