-- ===== src/Simulation/Network/Broadcast.antt =====
-- What a tagged frame may do, stated apart from the code of `_flood`: the ports that let it in, the
-- ports that it leaves by, and where it arrives.
use networkbasicswebsite.Prelude.{
  ℕ, ◌≡◌, refl, ap, elem-cons, elem-head, ◌≢◌, ◌⊎◌, inl, inr, String, Bool, true, false, not, ◌||◌,
  List, [], ◌∷◌, Option, none, some, arith, ◌==◌, string_eq, pair_eq, nat_eq, elem, Dict, lookup,
  Memᴰ, if◌then◌else◌, Bool-cases, Option-cases,
}
use mathlib.Core.List.Memᴰ
use networkbasicswebsite.Config.{access, trunk}
use networkbasicswebsite.Simulation.Network.Types.{
  Port, port_beq_iff, SimInterface, carries_vlan, SimDevice, switches_frames, Network,
}
use networkbasicswebsite.Simulation.Network.Queries.{peer_of}
use networkbasicswebsite.Simulation.Network.Flood.{ingress, admit, blocks, exits_over}

-- A live port of a device of the network. On a switch, an access port lets in its own VLAN and a
-- trunk the VLANs that it carries.
pub record LetsIn (net : Network) (vlan : ℕ) (p : Port) (device : SimDevice) : Type 0 where
  pub port : SimInterface
  pub known : lookup p.0 net.devices ≡ some device
  pub present : lookup p.1 device.interfaces ≡ some port
  pub up : port.enabled ≡ true
  pub in_access :
      switches_frames device ≡ true → port.switchport_mode ≡ some access → port.access_vlan ≡ vlan
  pub in_trunk :
      switches_frames device ≡ true
      → port.switchport_mode ≡ some trunk
      → carries_vlan port vlan ≡ true

-- The frame leaves a device by the port `name`, another one than `ingress_name`, for the port `q`.
pub record LeavesBy (net : Network) (vlan : ℕ) (device_id ingress_name : String)
    (ports : Dict String SimInterface) (q : Port) : Type 0 where
  pub name : String
  pub port : SimInterface
  pub listed : Memᴰ (name, port) ports
  pub other : name ≢ ingress_name
  pub up : port.enabled ≡ true
  pub carries : (port.switchport_mode ≡ none) ⊎ (carries_vlan port vlan ≡ true)
  pub cabled : peer_of net device_id name ≡ some q

-- Where a frame of this VLAN arrives that starts at `seeds` and never passes a port of `visited`.
pub data Arrives (net : Network) (vlan : ℕ) (seeds visited : List Port) : Port → Type 0 where
  seed : {p : Port} → elem p seeds ≡ true → Arrives net vlan seeds visited p
  hop :
      {p q : Port} {device : SimDevice}
      → Arrives net vlan seeds visited p
      → elem p visited ≡ false
      → LetsIn net vlan p device
      → switches_frames device ≡ true
      → LeavesBy net vlan p.0 p.1 device.interfaces q
      → Arrives net vlan seeds visited q

module _ (net : Network) (vlan : ℕ) where
  abbrev pub Admits : Port → SimDevice → Type 0
  Admits p device = admit net p (some vlan) ≡ some (device, some vlan)

  ingress-tagged :
      (device : SimDevice) (port : SimInterface) (vlan' : Option ℕ)
      → ingress device port (some vlan) ≡ some vlan'
      → vlan' ≡ some vlan
  unfolding ingress
  ingress-tagged device port vlan' h = ground arith

  -- What `admit` looked up, when it lets a frame in.
  admit-parts :
      (p : Port) (arriving vlan' : Option ℕ) (device : SimDevice)
      → admit net p arriving ≡ some (device, vlan')
      → (port : SimInterface) × (lookup p.0 net.devices ≡ some device)
        × (lookup p.1 device.interfaces ≡ some port)
        × (port.enabled ≡ true)
        × (ingress device port arriving ≡ some vlan')
  unfolding admit
  admit-parts (id, name) arriving vlan' device h = elim (Option-cases (lookup id net.devices)) [
    | inl e ↦ absurd (ground arith)
    | inr (found, e) ↦ elim (Option-cases (lookup name found.interfaces)) [
      | inl e' ↦ absurd (ground arith)
      | inr (port, e') ↦ (port, ground arith, ground arith, ground arith, ground arith)
    ]
  ]

  -- A tagged frame keeps its VLAN.
  pub admit-tagged :
      (p : Port) (device : SimDevice) (vlan' : Option ℕ)
      → admit net p (some vlan) ≡ some (device, vlan')
      → vlan' ≡ some vlan
  admit-tagged p device vlan' h =
      let (port, _, _, _, taken) = admit-parts p (some vlan) vlan' device h in
      ingress-tagged device port vlan' taken

  pub LetsIn-of_Admits :
      (p : Port) (device : SimDevice) → Admits p device → LetsIn net vlan p device
  unfolding ingress
  LetsIn-of_Admits p device h =
      let (port, known, present, up, taken) = admit-parts p (some vlan) (some vlan) device h in
      record {
        port = port;
        known = known;
        present = present;
        up = up;
        in_access = λ sw mode. ground (arith, nat_eq.eqb_iff port.access_vlan vlan);
        in_trunk = λ sw mode. ground arith;
      }

  ingress_open :
      (device : SimDevice) (port : SimInterface)
      → (switches_frames device ≡ true
          → port.switchport_mode ≡ some access
          → port.access_vlan ≡ vlan)
      → (switches_frames device ≡ true
          → port.switchport_mode ≡ some trunk
          → carries_vlan port vlan ≡ true)
      → ingress device port (some vlan) ≡ some (some vlan)
  unfolding ingress
  ingress_open device port a t = ground arith

  pub Admits-of_LetsIn :
      (p : Port) (device : SimDevice) → LetsIn net vlan p device → Admits p device
  unfolding admit
  Admits-of_LetsIn (id, name) device l =
      let taken = ingress_open device l.port l.in_access l.in_trunk in
      ground (arith, taken, l.known, l.present, l.up)

  mode_carries :
      (port : SimInterface)
      → blocks port (some vlan) ≡ false
      → (port.switchport_mode ≡ none) ⊎ (carries_vlan port vlan ≡ true)
  mode_carries port h = ground arith

  carries_blocks :
      (port : SimInterface)
      → (port.switchport_mode ≡ none) ⊎ (carries_vlan port vlan ≡ true)
      → blocks port (some vlan) ≡ false
  carries_blocks port h = ground arith

  elem_after :
      (q : Port) (more : List Port) (skip : Bool) (far : Option Port)
      → elem q more ≡ true
      → elem q (if skip then more else elim far [ none ↦ more | some p ↦ p ∷ more ]) ≡ true
  elem_after q more true far h = h
  elem_after q more false none h = h
  elem_after q more false (some p) h = elem-cons q p more h

  LeavesBy-weaken :
      (device_id name : String) (entry : String × SimInterface) (ports : Dict String SimInterface)
      (q : Port)
      → LeavesBy net vlan device_id name ports q
      → LeavesBy net vlan device_id name (entry ∷ ports) q
  LeavesBy-weaken device_id name entry ports q l = record {
    name = l.name;
    port = l.port;
    listed = Memᴰ.tail l.listed;
    other = l.other;
    up = l.up;
    carries = l.carries;
    cabled = l.cabled;
  }

  pub exits_over-LeavesBy :
      (device_id name : String) (ports : Dict String SimInterface) (q : Port)
      → elem q (exits_over net device_id name (some vlan) ports) ≡ true
      → LeavesBy net vlan device_id name ports q
  unfolding exits_over
  exits_over-LeavesBy device_id name [] q h = cc
  exits_over-LeavesBy device_id name ((other, port) ∷ rest) q h =
      elim (Bool-cases (other == name || not port.enabled || blocks port (some vlan))) [
        | inl skip ↦
            LeavesBy-weaken device_id name (other, port) rest q
              (exits_over-LeavesBy device_id name rest q (ground arith))
        | inr open_port ↦ elim (Option-cases (peer_of net device_id other)) [
          | inl e ↦
              LeavesBy-weaken device_id name (other, port) rest q
                (exits_over-LeavesBy device_id name rest q (ground arith))
          | inr (p, e) ↦ elim (Bool-cases (q == p)) [
            | inl same ↦ record {
              name = other;
              port = port;
              listed = Memᴰ.head refl;
              other = λ clash. ground (arith, string_eq.eqb_iff other name);
              up = ground arith;
              carries = mode_carries port (ground arith);
              cabled = ground (arith, port_beq_iff q p);
            }
            | inr differs ↦
                LeavesBy-weaken device_id name (other, port) rest q
                  (exits_over-LeavesBy device_id name rest q (ground arith))
          ]
        ]
      ]

  pub elem-exits_over :
      (device_id name : String) (ports : Dict String SimInterface) (q : Port)
      → LeavesBy net vlan device_id name ports q
      → elem q (exits_over net device_id name (some vlan) ports) ≡ true
  unfolding exits_over
  elem-exits_over device_id name [] q l = absurd (Memᴰ.not-nil l.listed)
  elem-exits_over device_id name ((other, port) ∷ rest) q l = elim (Memᴰ.cases_cons l.listed) [
    | inl here ↦
        let name_path : l.name ≡ other = ap (λ e. e.0) here in
        let port_path : l.port ≡ port = ap (λ e. e.1) here in
        let free = carries_blocks l.port l.carries in
        ground (
          arith,
          l.other,
          l.up,
          l.cabled,
          free,
          string_eq.eqb_iff other name,
          elem-head q (exits_over net device_id name (some vlan) rest),
        )
    | inr later ↦
        let known = elem-exits_over device_id name rest q (record {
          name = l.name;
          port = l.port;
          listed = later;
          other = l.other;
          up = l.up;
          carries = l.carries;
          cabled = l.cabled;
        }) in
        elem_after q (exits_over net device_id name (some vlan) rest)
          (other == name || not port.enabled || blocks port (some vlan))
          (peer_of net device_id other) known
  ]
