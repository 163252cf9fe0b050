-- ===== src/Topology/SelfJoin.antt =====
-- `TopologyDocument._validate_structure`: its last test is never the one that fails.
use networkbasicswebsite.Prelude.{
  ◌≡◌, ◌≢◌, refl, ap, inl, inr, String, false, ◌&&◌, List, [], ◌∷◌, map, some, arith, ◌==◌,
  string_eq, pair_eq, elem, Dict, lookup, insert, Bool-cases, Option-cases,
}
use networkbasicswebsite.Topology.Document.{
  TopologyDevice, LinkEndpoint, TopologyLink, TopologyGroup, TopologyDocument,
}
use networkbasicswebsite.Topology.Structure.{
  joins_itself, Checked, passed, failed, ◌>>=◌, Slot, index_devices, has_duplicates, check_groups,
  occupy, Occupancy, check_link, check_links, validate_structure,
}
use networkbasicswebsite.Topology.Wiring.{slot, slot_beq_iff, occupy-passed, lookup-insert_same}

-- The error does not say that a link joins an interface to itself.
abbrev OtherError : {A : Type 0} → Checked A → Type 0
OtherError c = (id : String) → c ≢ failed (joins_itself id)

OtherError-bind :
    {A B : Type 0} (c : Checked A) (f : A → Checked B)
    → OtherError c
    → ((a : A) → c ≡ passed a → OtherError (f a))
    → OtherError (c >>= f)
OtherError-bind (passed a) f h k id e = k a refl id e
OtherError-bind (failed error) f h k id e =
    let same : error ≡ joins_itself id = ground (arith, e) in h id (ap failed same)

index_devices-OtherError :
    (by_id : Dict String TopologyDevice) (devices : List TopologyDevice)
    → OtherError (index_devices by_id devices)
unfolding index_devices
index_devices-OtherError by_id [] id e = cc
index_devices-OtherError by_id (device ∷ rest) id e = elim (Option-cases (lookup device.id by_id)) [
  | inr (old, f) ↦ absurd (ground (arith, e, f))
  | inl f ↦ index_devices-OtherError (insert device.id device by_id) rest id (ground (arith, e, f))
]

check_groups-OtherError :
    (group_ids : List String) (devices : List TopologyDevice)
    → OtherError (check_groups group_ids devices)
unfolding check_groups
check_groups-OtherError group_ids [] id e = cc
check_groups-OtherError group_ids (device ∷ rest) id e =
    ground (arith, e, check_groups-OtherError group_ids rest id)

occupy-OtherError :
    (by_id : Dict String TopologyDevice) (link_id : String) (occupied : Dict Slot String)
    (endpoint : LinkEndpoint)
    → OtherError (occupy by_id link_id occupied endpoint)
unfolding occupy
occupy-OtherError by_id link_id occupied endpoint id e = ground (arith, e)

ends-differ :
    (by_id : Dict String TopologyDevice) (link : TopologyLink) (s one both : Dict Slot String)
    → occupy by_id link.id s link.source ≡ passed one
    → occupy by_id link.id one link.target ≡ passed both
    → (link.source.device_id == link.target.device_id
        && link.source.interface == link.target.interface)
      ≡ false
ends-differ by_id link s one both e f =
    let (_, _, first) = occupy-passed by_id link.id s one link.source e in
    let (_, free, _) = occupy-passed by_id link.id one both link.target f in
    let taken : lookup (slot link.source) one ≡ some link.id =
      rw first (lookup-insert_same (slot link.source) link.id s) in
    elim (Bool-cases (slot link.source == slot link.target)) [
      | inr differ ↦ differ
      | inl equal ↦
          let same : slot link.source ≡ slot link.target =
            (slot_beq_iff (slot link.source) (slot link.target)).0 equal in
          absurd (ground (arith, ap (λ k. lookup k one) same, free, taken))
    ]

check_link-OtherError :
    (by_id : Dict String TopologyDevice) (s : Occupancy) (link : TopologyLink)
    → OtherError (check_link by_id s link)
unfolding check_link
check_link-OtherError by_id s link = elim (Bool-cases (elem link.id s.seen_links)) [
  | inl seen ↦ rw (seen, check_link) (λ id e. cc)
  | inr new ↦
      rw (new, check_link)
        (OtherError-bind (occupy by_id link.id s.occupied link.source) _
          (occupy-OtherError by_id link.id s.occupied link.source)
          (λ one e.
            OtherError-bind (occupy by_id link.id one link.target) _
              (occupy-OtherError by_id link.id one link.target)
              (λ both f. rw (ends-differ by_id link s.occupied one both e f) (λ id g. cc))))
]

check_links-OtherError :
    (by_id : Dict String TopologyDevice) (s : Occupancy) (links : List TopologyLink)
    → OtherError (check_links by_id s links)
unfolding check_links
check_links-OtherError by_id s [] id e = cc
check_links-OtherError by_id s (link ∷ rest) id e =
    OtherError-bind (check_link by_id s link) (λ next. check_links by_id next rest)
      (check_link-OtherError by_id s link) (λ next _. check_links-OtherError by_id next rest) id e

-- No document fails with the error that a link joins an interface to itself: the second end of such
-- a link finds its interface occupied before.
pub validate_structure-ne-joins_itself :
    (document : TopologyDocument) (id : String)
    → validate_structure document ≢ failed (joins_itself id)
unfolding validate_structure
validate_structure-ne-joins_itself document id e =
    OtherError-bind (index_devices [] document.devices) _
      (index_devices-OtherError [] document.devices)
      (λ by_id _.
        elim (Bool-cases
          (has_duplicates (map (λ (group : TopologyGroup). group.id) document.groups))) [
            | inl twice ↦ rw twice (λ i f. cc)
            | inr once ↦ rw once (
                OtherError-bind (check_groups _ document.devices) _
                  (check_groups-OtherError _ document.devices)
                  (λ u _. check_links-OtherError by_id _ document.links))
          ])
      id e
