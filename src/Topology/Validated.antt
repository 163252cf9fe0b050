-- ===== src/Topology/Validated.antt =====
-- `TopologyDocument._validate_structure`: a port takes one cable, and no link joins a port to itself.
use mathlib.Core.List.Memᴰ
use networkbasicswebsite.Prelude.{
  ◌≡◌, ◌≢◌, sym, ap, ◌∙◌, ◌⊎◌, inl, inr, String, true, List, [], ◌∷◌, map, some, arith, string_eq,
  pair_eq, elem, elem-head, elem-cons, Memᴰ, Dict, lookup, Bool-cases,
}
use networkbasicswebsite.Topology.Document.{
  TopologyDevice, TopologyLink, TopologyGroup, TopologyDocument,
}
use networkbasicswebsite.Topology.Structure.{
  passed, Slot, index_devices, has_duplicates, check_groups, Occupancy, check_links,
  validate_structure,
}
use networkbasicswebsite.Topology.Wiring.{slot, IsWired, NewIds, Checked-cases, check_links-IsWired}

-- A document that passes has indexed devices, links whose ids differ, and only links that join two
-- different interfaces of its devices, both occupied by that link.
pub validate_structure-IsWired :
    (document : TopologyDocument) (s : Occupancy)
    → validate_structure document ≡ passed s
    → (by_id : Dict String TopologyDevice) × (index_devices [] document.devices ≡ passed by_id)
      × NewIds [] document.links
      × ((link : TopologyLink) → Memᴰ link document.links → IsWired by_id s.occupied link)
unfolding validate_structure
validate_structure-IsWired document s h = elim (Checked-cases (index_devices [] document.devices)) [
  | inr (error, e) ↦ absurd (ground (arith, h, e))
  | inl (by_id, e) ↦
      let group_ids = map (λ (group : TopologyGroup). group.id) document.groups in
      elim (Bool-cases (has_duplicates group_ids)) [
        | inl twice ↦ absurd (ground (arith, h, e, twice))
        | inr once ↦ elim (Checked-cases (check_groups group_ids document.devices)) [
          | inr (error, f) ↦ absurd (ground (arith, h, e, once, f))
          | inl (u, f) ↦
              let start : Occupancy = record { seen_links = []; occupied = [] } in
              let links : check_links by_id start document.links ≡ passed s =
                ground (arith, h, e, once, f) in
              let (_, ids, wired) = check_links-IsWired by_id start s document.links links in
              (by_id, e, ids, wired)
        ]
      ]
]

-- The port is an end of the link.
abbrev pub IsEnd : Slot → TopologyLink → Type 0
IsEnd p link = (p ≡ slot link.source) ⊎ (p ≡ slot link.target)

NewIds-ne :
    (seen : List String) (links : List TopologyLink) (id : String) (link : TopologyLink)
    → NewIds seen links
    → elem id seen ≡ true
    → Memᴰ link links
    → link.id ≢ id
NewIds-ne seen [] id link h old m same = absurd (Memᴰ.not-nil m)
NewIds-ne seen (first ∷ rest) id link h old m same = elim (Memᴰ.cases_cons m) [
  | inl here ↦ absurd (
      ground (
        arith,
        ap (λ l. elem {A = String} l seen) (ap (λ (l : TopologyLink). l.id) (sym here) ∙ same),
        old,
        h.0,
      ))
  | inr later ↦
      NewIds-ne (first.id ∷ seen) rest id link h.1 (elem-cons id first.id seen old) later same
]

-- Links with the same id are the same link.
NewIds-injective :
    (seen : List String) (links : List TopologyLink) (a b : TopologyLink)
    → NewIds seen links
    → Memᴰ a links
    → Memᴰ b links
    → a.id ≡ b.id
    → a ≡ b
NewIds-injective seen [] a b h m n same = absurd (Memᴰ.not-nil m)
NewIds-injective seen (first ∷ rest) a b h m n same =
    let met = elem-head first.id seen in
    elim (Memᴰ.cases_cons m) [
      | inl a_here ↦ elim (Memᴰ.cases_cons n) [
        | inl b_here ↦ a_here ∙ sym b_here
        | inr b_later ↦ absurd (
            NewIds-ne (first.id ∷ seen) rest first.id b h.1 met b_later
              (sym same ∙ ap (λ (l : TopologyLink). l.id) a_here))
      ]
      | inr a_later ↦ elim (Memᴰ.cases_cons n) [
        | inl b_here ↦ absurd (
            NewIds-ne (first.id ∷ seen) rest first.id a h.1 met a_later
              (same ∙ ap (λ (l : TopologyLink). l.id) b_here))
        | inr b_later ↦ NewIds-injective (first.id ∷ seen) rest a b h.1 a_later b_later same
      ]
    ]

end-carries :
    (by_id : Dict String TopologyDevice) (occupied : Dict Slot String) (p : Slot)
    (link : TopologyLink)
    → IsWired by_id occupied link
    → IsEnd p link
    → lookup p occupied ≡ some link.id
end-carries by_id occupied p link wired (inl e) = rw e wired.source_carries
end-carries by_id occupied p link wired (inr e) = rw e wired.target_carries

-- In a document that passes, an interface takes one cable: two links with a common end are the same.
pub validate_structure-one_cable :
    (document : TopologyDocument) (s : Occupancy) (a b : TopologyLink) (p : Slot)
    → validate_structure document ≡ passed s
    → Memᴰ a document.links
    → Memᴰ b document.links
    → IsEnd p a
    → IsEnd p b
    → a ≡ b
validate_structure-one_cable document s a b p h m n end_a end_b =
    let (by_id, _, ids, wired) = validate_structure-IsWired document s h in
    let on_a = end-carries by_id s.occupied p a (wired a m) end_a in
    let on_b = end-carries by_id s.occupied p b (wired b n) end_b in
    let same : a.id ≡ b.id = ground (arith, on_a, on_b) in
    NewIds-injective [] document.links a b ids m n same
