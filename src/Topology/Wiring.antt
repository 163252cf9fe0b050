-- ===== src/Topology/Wiring.antt =====
-- What a document that `_validate_structure` accepts is known to be.
use mathlib.Core.List.Memᴰ
use networkbasicswebsite.Prelude.{
  ◌≡◌, ◌≢◌, refl, ap, ◌⊎◌, ◌↔◌, inl, inr, String, true, false, List, [], ◌∷◌, none, some, arith,
  ◌==◌, string_eq, pair_eq, elem, Memᴰ, Dict, lookup, insert, lookup-insert, Bool-cases,
  Option-cases,
}
use networkbasicswebsite.Topology.Document.{TopologyDevice, LinkEndpoint, TopologyLink}
use networkbasicswebsite.Topology.Structure.{
  StructureError, Checked, passed, failed, Slot, interface_names, occupy, Occupancy, check_link,
  check_links,
}

-- The slot that an endpoint takes.
abbrev pub slot : LinkEndpoint → Slot
slot endpoint = (endpoint.device_id, endpoint.interface)

pub slot_beq_iff : (k j : Slot) → ((k == j) ≡ true) ↔ (k ≡ j)
slot_beq_iff k j = pair_eq.eqb_iff k j

-- The endpoint names a device of the document and one of its interfaces.
pub record IsKnown (by_id : Dict String TopologyDevice) (endpoint : LinkEndpoint) : Type 0 where
  pub device : TopologyDevice
  pub known : lookup endpoint.device_id by_id ≡ some device
  pub has : elem endpoint.interface (interface_names device) ≡ true

pub Checked-cases :
    {A : Type 0} (c : Checked A)
    → ((a : A) × (c ≡ passed a)) ⊎ ((error : StructureError) × (c ≡ failed error))
Checked-cases (passed a) = inl (a, refl)
Checked-cases (failed error) = inr (error, refl)

pub occupy-passed :
    (by_id : Dict String TopologyDevice) (id : String) (occupied taken : Dict Slot String)
    (endpoint : LinkEndpoint)
    → occupy by_id id occupied endpoint ≡ passed taken
    → IsKnown by_id endpoint
      × (lookup (slot endpoint) occupied ≡ none)
      × (taken ≡ insert (slot endpoint) id occupied)
unfolding occupy
occupy-passed by_id id occupied taken endpoint h =
    elim (Option-cases (lookup endpoint.device_id by_id)) [
      | inl e ↦ absurd (ground (arith, h, e))
      | inr (device, e) ↦ elim (Bool-cases (elem endpoint.interface (interface_names device))) [
        | inr n ↦ absurd (ground (arith, h, e, n))
        | inl y ↦ elim (Option-cases (lookup (slot endpoint) occupied)) [
          | inr (other, o) ↦ absurd (ground (arith, h, e, y, o))
          | inl o ↦ (record { device = device; known = e; has = y }, o, ground (arith, h, e, y, o))
        ]
      ]
    ]

-- What a link that passes its checks has done.
record IsAdded (by_id : Dict String TopologyDevice) (s t : Occupancy) (link : TopologyLink)
    : Type 0 where
  new : elem link.id s.seen_links ≡ false
  noted : t.seen_links ≡ link.id ∷ s.seen_links
  source_known : IsKnown by_id link.source
  target_known : IsKnown by_id link.target
  source_free : lookup (slot link.source) s.occupied ≡ none
  target_free : lookup (slot link.target) (insert (slot link.source) link.id s.occupied) ≡ none
  taken :
      t.occupied ≡ insert (slot link.target) link.id (insert (slot link.source) link.id s.occupied)

check_link-IsAdded :
    (by_id : Dict String TopologyDevice) (s t : Occupancy) (link : TopologyLink)
    → check_link by_id s link ≡ passed t
    → IsAdded by_id s t link
unfolding check_link
check_link-IsAdded by_id s t link h = elim (Bool-cases (elem link.id s.seen_links)) [
  | inl seen ↦ absurd (ground (arith, h, seen))
  | inr new ↦ elim (Checked-cases (occupy by_id link.id s.occupied link.source)) [
    | inr (error, e) ↦ absurd (ground (arith, h, new, e))
    | inl (one, e) ↦ elim (Checked-cases (occupy by_id link.id one link.target)) [
      | inr (error, f) ↦ absurd (ground (arith, h, new, e, f))
      | inl (both, f) ↦
          let (source_known, source_free, first) =
            occupy-passed by_id link.id s.occupied one link.source e in
          let (target_known, target_free, second) =
            occupy-passed by_id link.id one both link.target f in
          record {
            new = new;
            noted = ground (arith, h, new, e, f);
            source_known = source_known;
            target_known = target_known;
            source_free = source_free;
            target_free = rw first at target_free;
            taken = ground (arith, h, new, e, f, first, second);
          }
    ]
  ]
]

-- Both ends of the link are interfaces of the document's devices, and the slots of both carry it.
pub record IsWired (by_id : Dict String TopologyDevice) (occupied : Dict Slot String)
    (link : TopologyLink) : Type 0 where
  pub source_known : IsKnown by_id link.source
  pub target_known : IsKnown by_id link.target
  pub source_carries : lookup (slot link.source) occupied ≡ some link.id
  pub target_carries : lookup (slot link.target) occupied ≡ some link.id
  pub two_ends : slot link.source ≢ slot link.target

abbrev Extends : Dict Slot String → Dict Slot String → Type 0
Extends old new = (k : Slot) (id : String) → lookup k old ≡ some id → lookup k new ≡ some id

-- The id of no link stands in the list of the ids before it.
abbrev pub NewIds : List String → List TopologyLink → Type 0
NewIds seen [] = Unit
NewIds seen (link ∷ rest) = (elem link.id seen ≡ false) × NewIds (link.id ∷ seen) rest

lookup-insert_free :
    (k j : Slot) (v id : String) (d : Dict Slot String)
    → lookup k d ≡ none
    → lookup j d ≡ some id
    → lookup j (insert k v d) ≡ some id
lookup-insert_free k j v id d free h = elim (Bool-cases (k == j)) [
  | inl e ↦
      let same : k ≡ j = (slot_beq_iff k j).0 e in
      absurd (ground (arith, ap (λ i. lookup i d) same, free, h))
  | inr n ↦ ground (arith, lookup-insert k j v d, n, h)
]

pub lookup-insert_same :
    (k : Slot) (v : String) (d : Dict Slot String) → lookup k (insert k v d) ≡ some v
lookup-insert_same k v d =
    let same : (k == k) ≡ true = (slot_beq_iff k k).1 refl in
    ground (arith, lookup-insert k k v d, same)

module _ (by_id : Dict String TopologyDevice) where
  IsAdded-Extends :
      (s t : Occupancy) (link : TopologyLink)
      → IsAdded by_id s t link
      → Extends s.occupied t.occupied
  IsAdded-Extends s t link added k id h =
      let one = lookup-insert_free (slot link.source) k link.id id s.occupied added.source_free h in
      rw added.taken (
        lookup-insert_free (slot link.target) k link.id id
          (insert (slot link.source) link.id s.occupied) added.target_free one)

  IsAdded-IsWired :
      (s t : Occupancy) (link : TopologyLink)
      → IsAdded by_id s t link
      → IsWired by_id t.occupied link
  IsAdded-IsWired s t link added =
      let first = lookup-insert_same (slot link.source) link.id s.occupied in
      let one = insert (slot link.source) link.id s.occupied in
      record {
        source_known = added.source_known;
        target_known = added.target_known;
        source_carries = rw added.taken (
            lookup-insert_free (slot link.target) (slot link.source) link.id link.id one
              added.target_free first);
        target_carries = rw added.taken (lookup-insert_same (slot link.target) link.id one);
        two_ends =
            λ same. absurd (ground (arith, ap (λ k. lookup k one) same, first, added.target_free));
      }

  IsWired-Extends :
      (old new : Dict Slot String) (link : TopologyLink)
      → Extends old new
      → IsWired by_id old link
      → IsWired by_id new link
  IsWired-Extends old new link extends wired = record {
    source_known = wired.source_known;
    target_known = wired.target_known;
    source_carries = extends (slot link.source) link.id wired.source_carries;
    target_carries = extends (slot link.target) link.id wired.target_carries;
    two_ends = wired.two_ends;
  }

  -- What a passed loop over the links shows.
  pub check_links-IsWired :
      (s t : Occupancy) (links : List TopologyLink)
      → check_links by_id s links ≡ passed t
      → Extends s.occupied t.occupied
        × NewIds s.seen_links links
        × ((link : TopologyLink) → Memᴰ link links → IsWired by_id t.occupied link)
  unfolding check_links
  check_links-IsWired s t [] h =
      let same : s ≡ t = ground (arith, h) in
      (λ k id found. rw same at found, tt, λ link m. absurd (Memᴰ.not-nil m))
  check_links-IsWired s t (link ∷ rest) h = elim (Checked-cases (check_link by_id s link)) [
    | inr (error, e) ↦ absurd (ground (arith, h, e))
    | inl (next, e) ↦
        let added = check_link-IsAdded by_id s next link e in
        let passes : check_links by_id next rest ≡ passed t = ground (arith, h, e) in
        let (extends, ids, wired) = check_links-IsWired next t rest passes in
        (
          λ k id found. extends k id (IsAdded-Extends s next link added k id found),
          (added.new, rw added.noted at ids),
          λ other m. elim (Memᴰ.cases_cons m) [
            | inl here ↦ rw here (
                IsWired-Extends next.occupied t.occupied link extends
                  (IsAdded-IsWired s next link added))
            | inr later ↦ wired other later
          ],
        )
  ]
