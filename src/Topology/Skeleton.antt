-- ===== src/Topology/Skeleton.antt =====
-- `TopologyDocument._validate_structure` reads no configuration, cable or state of a link.
use networkbasicswebsite.Prelude.{
  ◌≡◌, refl, ap, ◌∙◌, inl, inr, String, true, List, [], ◌∷◌, map, Option, none, some, if◌then◌else◌,
  ◌==◌, string_eq, pair_eq, elem, Dict, lookup, insert, Option-cases, Bool-cases,
}
use networkbasicswebsite.Devices.{CableKind}
use networkbasicswebsite.Topology.Structure
use networkbasicswebsite.Topology.Document.{
  Json, TopologyDevice, LinkEndpoint, TopologyLink, TopologyGroup, TopologyDocument,
}
use networkbasicswebsite.Topology.Structure.{
  Checked, passed, failed, interface_names, index_devices, has_duplicates, check_groups, Slot,
  occupy, Occupancy, check_link, check_links, validate_structure,
}

-- A device without its configuration, and a link without its cable and its state.
abbrev pub bare : TopologyDevice → TopologyDevice
bare device = record device { config = Json.null }

abbrev pub bare_link : TopologyLink → TopologyLink
bare_link link = record link { cable = CableKind.fiber; enabled = true }

abbrev pub skeleton : TopologyDocument → TopologyDocument
skeleton document = record {
  devices = map bare document.devices;
  links = map bare_link document.links;
  groups = document.groups;
}

abbrev bare_all : Dict String TopologyDevice → Dict String TopologyDevice
bare_all [] = []
bare_all ((id, device) ∷ rest) = (id, bare device) ∷ bare_all rest

abbrev bare_checked : Checked (Dict String TopologyDevice) → Checked (Dict String TopologyDevice)
bare_checked (passed by_id) = passed (bare_all by_id)
bare_checked (failed error) = failed error

-- The validation reads only the skeleton

abbrev bare_option : Option TopologyDevice → Option TopologyDevice
bare_option none = none
bare_option (some device) = some (bare device)

lookup-bare :
    (id : String) (by_id : Dict String TopologyDevice)
    → lookup id (bare_all by_id) ≡ bare_option (lookup id by_id)
lookup-bare id [] = refl
lookup-bare id ((key, device) ∷ rest) = elim (Bool-cases (key == id)) [
  | inl e ↦ rw (e, lookup) refl
  | inr e ↦ rw (e, lookup) (lookup-bare id rest)
]

insert-bare :
    (id : String) (device : TopologyDevice) (by_id : Dict String TopologyDevice)
    → insert id (bare device) (bare_all by_id) ≡ bare_all (insert id device by_id)
insert-bare id device [] = refl
insert-bare id device ((key, old) ∷ rest) = elim (Bool-cases (key == id)) [
  | inl e ↦ rw (e, insert) refl
  | inr e ↦ rw (e, insert) (ap (λ more. (key, bare old) ∷ more) (insert-bare id device rest))
]

index_devices-bare :
    (by_id : Dict String TopologyDevice) (devices : List TopologyDevice)
    → index_devices (bare_all by_id) (map bare devices) ≡ bare_checked (index_devices by_id devices)
unfolding index_devices
index_devices-bare by_id [] = refl
index_devices-bare by_id (device ∷ rest) =
    let found = lookup-bare device.id by_id in
    elim (Option-cases (lookup device.id by_id)) [
      | inl e ↦
          let none_there : lookup device.id (bare_all by_id) ≡ none = found ∙ ap bare_option e in
          rw (e, none_there, insert-bare device.id device by_id, index_devices)
            (index_devices-bare (insert device.id device by_id) rest)
      | inr (old, e) ↦
          let there : lookup device.id (bare_all by_id) ≡ some (bare old) =
            found ∙ ap bare_option e in
          rw (e, there, index_devices) refl
    ]

check_groups-bare :
    (group_ids : List String) (devices : List TopologyDevice)
    → check_groups group_ids (map bare devices) ≡ check_groups group_ids devices
unfolding check_groups
check_groups-bare group_ids [] = refl
check_groups-bare group_ids (device ∷ rest) = elim (Option-cases device.group_id) [
  | inl e ↦ rw (e, check_groups) (check_groups-bare group_ids rest)
  | inr (group, e) ↦ elim (Bool-cases (elem group group_ids)) [
    | inl f ↦ rw (e, f, check_groups) (check_groups-bare group_ids rest)
    | inr f ↦ rw (e, f, check_groups) refl
  ]
]

occupy-bare :
    (by_id : Dict String TopologyDevice) (link_id : String) (occupied : Dict Slot String)
    (endpoint : LinkEndpoint)
    → occupy (bare_all by_id) link_id occupied endpoint ≡ occupy by_id link_id occupied endpoint
unfolding occupy interface_names
occupy-bare by_id link_id occupied endpoint =
    let found = lookup-bare endpoint.device_id by_id in
    elim (Option-cases (lookup endpoint.device_id by_id)) [
      | inl e ↦
          let none_there : lookup endpoint.device_id (bare_all by_id) ≡ none =
            found ∙ ap bare_option e in
          rw (e, none_there, occupy) refl
      | inr (device, e) ↦
          let there : lookup endpoint.device_id (bare_all by_id) ≡ some (bare device) =
            found ∙ ap bare_option e in
          rw (e, there, occupy) refl
    ]

bind-ext :
    {A B : Type 0} (r : Checked A) (f g : A → Checked B)
    → ((a : A) → f a ≡ g a)
    → Structure.◌>>=◌ r f ≡ Structure.◌>>=◌ r g
bind-ext (failed error) f g h = refl
bind-ext (passed a) f g h = h a

check_link-bare :
    (by_id : Dict String TopologyDevice) (s : Occupancy) (link : TopologyLink)
    → check_link (bare_all by_id) s (bare_link link) ≡ check_link by_id s link
unfolding check_link
check_link-bare by_id s link = elim (Bool-cases (elem link.id s.seen_links)) [
  | inl e ↦ rw (e, check_link) refl
  | inr e ↦
      rw (e, check_link, occupy-bare by_id link.id s.occupied link.source)
        (bind-ext (occupy by_id link.id s.occupied link.source) _ _
          (λ o. rw (occupy-bare by_id link.id o link.target) refl))
]

check_links-bare :
    (by_id : Dict String TopologyDevice) (s : Occupancy) (links : List TopologyLink)
    → check_links (bare_all by_id) s (map bare_link links) ≡ check_links by_id s links
unfolding check_links
check_links-bare by_id s [] = refl
check_links-bare by_id s (link ∷ rest) =
    ap (λ r. Structure.◌>>=◌ r (λ s'. check_links (bare_all by_id) s' (map bare_link rest)))
      (check_link-bare by_id s link)
    ∙ bind-ext (check_link by_id s link) _ _ (λ s'. check_links-bare by_id s' rest)

rest-bare :
    (document : TopologyDocument) (r : Checked (Dict String TopologyDevice))
    (group_ids : List String)
    → Structure.◌>>=◌ (bare_checked r) (λ by_id.
      if has_duplicates group_ids
      then failed Structure.duplicate_group
      else Structure.◌>>=◌ (check_groups group_ids (map bare document.devices)) (λ _.
        check_links by_id
          (record { seen_links = []; occupied = [] })
          (map bare_link document.links)))
      ≡ Structure.◌>>=◌ r (λ by_id.
        if has_duplicates group_ids
        then failed Structure.duplicate_group
        else Structure.◌>>=◌
            (check_groups group_ids document.devices)
            (λ _. check_links by_id (record { seen_links = []; occupied = [] }) document.links))
rest-bare document (failed error) group_ids = refl
rest-bare document (passed by_id) group_ids =
    let start : Occupancy = record { seen_links = []; occupied = [] } in
    rw (check_groups-bare group_ids document.devices, check_links-bare by_id start document.links)
      refl

pub validate_structure-skeleton :
    (document : TopologyDocument)
    → validate_structure (skeleton document) ≡ validate_structure document
unfolding validate_structure
validate_structure-skeleton document =
    let group_ids = map (λ (group : TopologyGroup). group.id) document.groups in
    rw (index_devices-bare [] document.devices)
      (rest-bare document (index_devices [] document.devices) group_ids)
