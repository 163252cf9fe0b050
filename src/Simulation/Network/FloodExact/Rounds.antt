-- ===== src/Simulation/Network/FloodExact/Rounds.antt =====
-- The invariant of the loop of `_flood`, for a frame with a known VLAN.
use mathlib.Core.List.Memᴰ
use networkbasicswebsite.Prelude.{
  ℕ, ◌≡◌, refl, ap, ◌∙◌, ◌⊎◌, inl, inr, true, false, List, [], ◌∷◌, ◌++◌, Option, none, some, arith,
  ◌==◌, string_eq, pair_eq, elem, elem-here, elem-cons, elem-append, Memᴰ, Bool-cases,
}
use networkbasicswebsite.Simulation.Network.Types.{
  Port, port_beq_iff, SimDevice, switches_frames, Network,
}
use networkbasicswebsite.Simulation.Network.Flood.{
  Arrival, admit, exits, FloodState, enqueue, forwarded,
}
use networkbasicswebsite.Simulation.Network.Broadcast.{
  Arrives, hop, Admits, admit-tagged, LetsIn-of_Admits, exits_over-LeavesBy,
}

-- No port is listed twice.
abbrev pub Distinct : List Port → Type 0
Distinct [] = Unit
Distinct (p ∷ ps) = (elem p ps ≡ false) × Distinct ps

Distinct-snoc :
    (p : Port) (ps : List Port) → elem p ps ≡ false → Distinct ps → Distinct (ps ++ p ∷ [])
Distinct-snoc p [] new h = (refl, tt)
Distinct-snoc p (q ∷ ps) new h =
    ground
      (arith, Distinct-snoc p ps, elem-append q ps (p ∷ []), port_beq_iff p q, port_beq_iff q p)

elem-enqueue :
    (seen : List Port) (vlan : Option ℕ) (ps : List Port) (q : Port)
    → elem q ps ≡ true
    → (elem q seen ≡ true) ⊎ Memᴰ (q, vlan) (enqueue seen vlan ps)
unfolding enqueue
elem-enqueue seen vlan [] q h = cc
elem-enqueue seen vlan (p ∷ ps) q h = elim (Bool-cases (q == p)) [
  | inl same ↦
      let e : q ≡ p = (port_beq_iff q p).0 same in
      elim (Bool-cases (elem p seen)) [
        | inl old ↦ inl (rw e old)
        | inr new ↦ inr (rw new (Memᴰ.head (rw e)))
      ]
  | inr differs ↦
      let later = elem-enqueue seen vlan ps q (ground arith) in
      elim (Bool-cases (elem p seen)) [
        | inl old ↦ rw old later
        | inr new ↦ elim later [ inl s ↦ inl s | inr m ↦ inr (rw new (Memᴰ.tail m)) ]
      ]
]

Memᴰ-enqueue :
    (seen : List Port) (vlan w : Option ℕ) (ps : List Port) (q : Port)
    → Memᴰ (q, w) (enqueue seen vlan ps)
    → (w ≡ vlan) × (elem q ps ≡ true)
unfolding enqueue
Memᴰ-enqueue seen vlan w [] q m = absurd (Memᴰ.not-nil m)
Memᴰ-enqueue seen vlan w (p ∷ ps) q m = elim (Bool-cases (elem p seen)) [
  | inl old ↦
      let (e, listed) = Memᴰ-enqueue seen vlan w ps q (rw old at m) in (e, elem-cons q p ps listed)
  | inr new ↦ elim (Memᴰ.cases_cons (rw new at m)) [
    | inl e ↦ (ap (λ a. a.1) e, ground (arith, ap (λ (a : Arrival). a.0) e, port_beq_iff q p))
    | inr later ↦
        let (e, listed) = Memᴰ-enqueue seen vlan w ps q later in (e, elem-cons q p ps listed)
  ]
]

module _ (net : Network) (vlan : ℕ) (seeds visited : List Port) where
  abbrev pub Came : Port → Type 0
  Came = Arrives net vlan seeds visited

  -- Waits in the queue, or was taken from it.
  abbrev pub Noted : FloodState → Port → Type 0
  Noted s q = (elem q s.seen ≡ true) ⊎ Memᴰ (q, some vlan) s.queue

  pub record Inv (s : FloodState) : Type 0 where
    pub sound :
        (q : Port)
        → elem q s.reached ≡ true
        → Came q × (elem q visited ≡ false) × ((device : SimDevice) × Admits net vlan q device)
    pub waiting : (q : Port) (w : Option ℕ) → Memᴰ (q, w) s.queue → (w ≡ some vlan) × Came q
    pub taken :
        (q : Port)
        → elem q s.seen ≡ true
        → (elem q visited ≡ true)
          ⊎ ((device : SimDevice) → Admits net vlan q device → elem q s.reached ≡ true)
    pub seeded : (q : Port) → elem q seeds ≡ true → Noted s q
    pub closed :
        (p q : Port) (device : SimDevice)
        → elem p s.reached ≡ true
        → Admits net vlan p device
        → switches_frames device ≡ true
        → elem q (exits net device p.0 p.1 (some vlan)) ≡ true
        → Noted s q
    pub barred : (q : Port) → elem q visited ≡ true → elem q s.seen ≡ true
    pub marked : (q : Port) → elem q s.reached ≡ true → elem q s.seen ≡ true
    pub once : Distinct s.reached

  module _ (p : Port) (arriving : Option ℕ) (rest : List Arrival) (s : FloodState)
      (head : s.queue ≡ (p, arriving) ∷ rest) (inv : Inv s) where
    arrived : (arriving ≡ some vlan) × Came p
    arrived = inv.waiting p arriving (rw head (Memᴰ.head refl))

    -- What is noted stays noted when the head of the queue is marked as seen.
    still-Noted : (q : Port) → Noted s q → (elem q (p ∷ s.seen) ≡ true) ⊎ Memᴰ (q, some vlan) rest
    still-Noted q (inl old) = inl (elem-cons q p s.seen old)
    still-Noted q (inr m) = elim (Memᴰ.cases_cons (rw head at m)) [
      | inl e ↦ inl (elem-here q p s.seen (ap (λ (a : Arrival). a.0) e))
      | inr later ↦ inr later
    ]

    later_waiting : (q : Port) (w : Option ℕ) → Memᴰ (q, w) rest → (w ≡ some vlan) × Came q
    later_waiting q w m = inv.waiting q w (rw head (Memᴰ.tail m))

    pub Inv-again : elem p s.seen ≡ true → Inv (record s { queue = rest })
    Inv-again old = record {
      sound = inv.sound;
      waiting = later_waiting;
      taken = inv.taken;
      seeded = λ q h. unmark q (still-Noted q (inv.seeded q h));
      closed = λ p' q device r a w e. unmark q (still-Noted q (inv.closed p' q device r a w e));
      barred = inv.barred;
      marked = inv.marked;
      once = inv.once;
    }
      where
        unmark :
            (q : Port)
            → (elem q (p ∷ s.seen) ≡ true) ⊎ Memᴰ (q, some vlan) rest
            → (elem q s.seen ≡ true) ⊎ Memᴰ (q, some vlan) rest
        unmark q (inl h) = inl (ground (arith, port_beq_iff q p))
        unmark q (inr m) = inr m

    pub Inv-dropped :
        elem p s.seen ≡ false
        → admit net p arriving ≡ none
        → Inv (record { seen = p ∷ s.seen; queue = rest; reached = s.reached })
    Inv-dropped new refused = record {
      sound = inv.sound;
      waiting = later_waiting;
      taken = λ q h. elim (Bool-cases (q == p)) [
        | inl same ↦ inr (λ device a. absurd (blocked q device ((port_beq_iff q p).0 same) a))
        | inr differs ↦ inv.taken q (ground arith)
      ];
      seeded = λ q h. still-Noted q (inv.seeded q h);
      closed = λ p' q device r a w e. still-Noted q (inv.closed p' q device r a w e);
      barred = λ q h. elem-cons q p s.seen (inv.barred q h);
      marked = λ q h. elem-cons q p s.seen (inv.marked q h);
      once = inv.once;
    }
      where
        blocked : (q : Port) (device : SimDevice) → q ≡ p → Admits net vlan q device → ⊥
        blocked q device e a =
            let tag : arriving ≡ some vlan = arrived.0 in
            let at_p : Admits net vlan p device = rw e at a in
            let refused' : admit net p (some vlan) ≡ none = rw tag at refused in cc

    module _ (device : SimDevice) (vlan' : Option ℕ) (new : elem p s.seen ≡ false)
        (let_in : admit net p arriving ≡ some (device, vlan')) where
      tagged : vlan' ≡ some vlan
      tagged =
          let tag : arriving ≡ some vlan = arrived.0 in
          admit-tagged net vlan p device vlan' (rw tag at let_in)

      admitted : Admits net vlan p device
      admitted = let tag : arriving ≡ some vlan = arrived.0 in rw (tag, tagged) at let_in

      abbrev pub sent : List Arrival
      sent = forwarded net device p vlan' (p ∷ s.seen)

      sent_from :
          (q : Port) (w : Option ℕ)
          → Memᴰ (q, w) sent
          → (w ≡ some vlan)
            × (switches_frames device ≡ true)
            × (elem q (exits net device p.0 p.1 (some vlan)) ≡ true)
      sent_from q w m = elim (Bool-cases (switches_frames device)) [
        | inl e ↦
            let (same, listed) =
              Memᴰ-enqueue (p ∷ s.seen) vlan' w (exits net device p.0 p.1 vlan') q (rw e at m) in
            (same ∙ tagged, e, rw tagged at listed)
        | inr e ↦ absurd (Memᴰ.not-nil (rw e at m))
      ]

      unvisited : elem p visited ≡ false
      unvisited = elim (Bool-cases (elem p visited)) [
        | inl h ↦ absurd (let old = inv.barred p h in cc)
        | inr h ↦ h
      ]

      sent-Came : (q : Port) (w : Option ℕ) → Memᴰ (q, w) sent → (w ≡ some vlan) × Came q
      unfolding exits
      sent-Came q w m =
          let (tag, switch, listed) = sent_from q w m in
          (
            tag,
            hop arrived.1 unvisited (LetsIn-of_Admits net vlan p device admitted) switch
                (exits_over-LeavesBy net vlan p.0 p.1 device.interfaces q listed),
          )

      noted_now :
          (q : Port)
          → (elem q (p ∷ s.seen) ≡ true) ⊎ Memᴰ (q, some vlan) rest
          → (elem q (p ∷ s.seen) ≡ true) ⊎ Memᴰ (q, some vlan) (rest ++ sent)
      noted_now q (inl h) = inl h
      noted_now q (inr m) = inr (Memᴰ.append_left sent m)

      noted_sent :
          (q : Port)
          → switches_frames device ≡ true
          → elem q (exits net device p.0 p.1 (some vlan)) ≡ true
          → (elem q (p ∷ s.seen) ≡ true) ⊎ Memᴰ (q, some vlan) (rest ++ sent)
      noted_sent q switch listed =
          elim (elem-enqueue (p ∷ s.seen) (some vlan) (exits net device p.0 p.1 (some vlan)) q
            listed) [ inl h ↦ inl h | inr m ↦ inr (Memᴰ.append_right rest (rw (switch, tagged) m)) ]

      same_device : (other : SimDevice) → Admits net vlan p other → other ≡ device
      same_device other a = cc admitted

      pub Inv-reached :
          Inv (record { seen = p ∷ s.seen; queue = rest ++ sent; reached = s.reached ++ p ∷ [] })
      Inv-reached = record {
        sound = λ q h. elim (Bool-cases (elem q s.reached)) [
          | inl old ↦ inv.sound q old
          | inr fresh ↦
              let e : q ≡ p = last q h fresh in rw e (arrived.1, unvisited, (device, admitted))
        ];
        waiting = λ q w m. elim (Memᴰ.append_cases rest m) [
          | inl old ↦ later_waiting q w old
          | inr fresh ↦ sent-Came q w fresh
        ];
        taken = λ q h. elim (Bool-cases (q == p)) [
          | inl same ↦ inr (λ d a. ground (arith, elem-append q s.reached (p ∷ [])))
          | inr differs ↦ elim (inv.taken q (ground arith)) [
            | inl v ↦ inl v
            | inr r ↦ inr (λ d a. ground (arith, r d a, elem-append q s.reached (p ∷ [])))
          ]
        ];
        seeded = λ q h. noted_now q (still-Noted q (inv.seeded q h));
        closed = λ p' q d r a w e. elim (Bool-cases (elem p' s.reached)) [
          | inl old ↦ noted_now q (still-Noted q (inv.closed p' q d old a w e))
          | inr fresh ↦ from_p p' q d (last p' r fresh) a w e
        ];
        barred = λ q h. elem-cons q p s.seen (inv.barred q h);
        marked =
            λ q h. ground (arith, inv.marked q, elem-append q s.reached (p ∷ []), port_beq_iff q p);
        once = Distinct-snoc p s.reached (ground (arith, inv.marked p)) inv.once;
      }
        where
          last : (q : Port) → elem q (s.reached ++ p ∷ []) ≡ true → elem q s.reached ≡ false → q ≡ p
          last q h fresh = ground (arith, elem-append q s.reached (p ∷ []), port_beq_iff q p)

          from_p :
              (p' q : Port) (d : SimDevice)
              → p' ≡ p
              → Admits net vlan p' d
              → switches_frames d ≡ true
              → elem q (exits net d p'.0 p'.1 (some vlan)) ≡ true
              → (elem q (p ∷ s.seen) ≡ true) ⊎ Memᴰ (q, some vlan) (rest ++ sent)
          from_p p' q d e a w listed =
              let at_p : Admits net vlan p d = rw e at a in
              let same : d ≡ device = same_device d at_p in
              noted_sent q (rw same at w) (rw (e, same) at listed)
