-- ===== src/Topology/Structure.antt =====
-- `TopologyDocument._validate_structure`: one loop after the other, and the first violation raises.
use networkbasicswebsite.Prelude.{
  String, Bool, true, false, not, ◌&&◌, List, [], ◌∷◌, map, none, some, if◌then◌else◌, ◌==◌,
  string_eq, pair_eq, elem, Dict, lookup, insert,
}
use networkbasicswebsite.Devices.{spec_for, interfaces}
use networkbasicswebsite.Topology.Document.{
  TopologyDevice, LinkEndpoint, TopologyLink, TopologyGroup, TopologyDocument,
}

-- The ValueErrors, with the parts of their messages.
pub data StructureError : Type 0 where
  duplicate_device duplicate_link joins_itself : (id : String) → StructureError
  duplicate_group : StructureError
  unknown_group : (device group : String) → StructureError
  unknown_device : (link device : String) → StructureError
  no_interface : (link device interface : String) → StructureError
  already_carries : (device interface link : String) → StructureError

pub data Checked {ℓ} (A : Type ℓ) : Type ℓ where
  passed : A → Checked A
  failed : StructureError → Checked A

infixl 5 ◌>>=◌
abbrev pub ◌>>=◌ {ℓ ℓ'} : {T : Type ℓ} {V : Type ℓ'} → Checked T → (T → Checked V) → Checked V
failed error >>= next = failed error
passed value >>= next = next value

abbrev pub Slot : Type 0
Slot = String × String

-- `device.interface_names()`
unfoldable pub interface_names : TopologyDevice → List String
unfolding interfaces spec_for
interface_names device = map (λ entry. entry.name) (interfaces (spec_for device.kind))

unfoldable pub index_devices :
    Dict String TopologyDevice → List TopologyDevice → Checked (Dict String TopologyDevice)
index_devices by_id [] = passed by_id
index_devices by_id (device ∷ rest) = elim (lookup device.id by_id) [
  | some _ ↦ failed (duplicate_device device.id)
  | none ↦ index_devices (insert device.id device by_id) rest
]

-- `len(group_ids) != len(self.groups)`
unfoldable pub has_duplicates : List String → Bool
has_duplicates [] = false
has_duplicates (x ∷ xs) = if elem x xs then true else has_duplicates xs

unfoldable pub check_groups : List String → List TopologyDevice → Checked (Unit {0})
check_groups group_ids [] = passed tt
check_groups group_ids (device ∷ rest) = elim device.group_id [
  | none ↦ check_groups group_ids rest
  | some group ↦ elim (elem group group_ids) [
    | true ↦ check_groups group_ids rest
    | false ↦ failed (unknown_group device.name group)
  ]
]

-- The inner loop's body: one endpoint of a link takes its slot.
unfoldable pub occupy :
    Dict String TopologyDevice
    → String
    → Dict Slot String
    → LinkEndpoint
    → Checked (Dict Slot String)
occupy by_id link_id occupied endpoint = elim (lookup endpoint.device_id by_id) [
  | none ↦ failed (unknown_device link_id endpoint.device_id)
  | some device ↦
      if not (elem endpoint.interface (interface_names device))
      then failed (no_interface link_id device.name endpoint.interface)
      else elim (lookup (endpoint.device_id, endpoint.interface) occupied) [
        | some other ↦ failed (already_carries device.name endpoint.interface other)
        | none ↦ passed (insert (endpoint.device_id, endpoint.interface) link_id occupied)
      ]
]

-- The state of the loop over the links: the ids seen and the slots taken.
pub record Occupancy : Type 0 where
  pub seen_links : List String
  pub occupied : Dict Slot String

unfoldable pub check_link :
    Dict String TopologyDevice → Occupancy → TopologyLink → Checked Occupancy
unfolding occupy
check_link by_id s link = if elem link.id s.seen_links then failed (duplicate_link link.id) else do
  one ← occupy by_id link.id s.occupied link.source
  both ← occupy by_id link.id one link.target
  if link.source.device_id == link.target.device_id
        && link.source.interface == link.target.interface
      then failed (joins_itself link.id)
      else passed (record { seen_links = link.id ∷ s.seen_links; occupied = both })

unfoldable pub check_links :
    Dict String TopologyDevice → Occupancy → List TopologyLink → Checked Occupancy
check_links by_id s [] = passed s
check_links by_id s (link ∷ rest) = do s' ← check_link by_id s link; check_links by_id s' rest

unfoldable pub validate_structure : TopologyDocument → Checked Occupancy
validate_structure document = do
  by_id ← index_devices [] document.devices
  let group_ids = map (λ (group : TopologyGroup). group.id) document.groups
  if has_duplicates group_ids then failed duplicate_group else do
    _ ← check_groups group_ids document.devices
    check_links by_id (record { seen_links = []; occupied = [] }) document.links
