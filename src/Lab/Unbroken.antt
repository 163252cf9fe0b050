-- ===== src/Lab/Unbroken.antt =====
-- Faults keep a document's structure: `_validate_structure` has the same outcome after them.
use networkbasicswebsite.Prelude.{
  ◌≡◌, refl, ap, sym, ◌∙◌, inl, inr, String, Bool, List, [], ◌∷◌, map, Option, none, some, arith,
  string_eq, pair_eq, Option-cases, Bool-cases,
}
use networkbasicswebsite.Topology.{
  Json, Items, TopologyDevice, TopologyLink, TopologyDocument, validate_structure,
}
use networkbasicswebsite.Topology.Skeleton.{bare, bare_link, skeleton, validate_structure-skeleton}
use networkbasicswebsite.Lab.Faults.{
  Fault, Change, on_routes, routes_change, without_route, config_of, field,
}
use networkbasicswebsite.Lab.Inject.{
  change_first, is_named, has_id, change_device, lookup_device, links_ids, change_link, off,
  recable, cable_kind, change_between, on_device, apply_one, apply_faults,
}

-- A fault keeps the skeleton

change_first-bare :
    (test : TopologyDevice → Bool) (change : Change) (devices changed : List TopologyDevice)
    (applied : Bool)
    → ((device : TopologyDevice) → bare (change device).0 ≡ bare device)
    → change_first test change devices ≡ some (changed, applied)
    → map bare changed ≡ map bare devices
unfolding change_first
change_first-bare test change [] changed applied mild h = cc
change_first-bare test change (device ∷ rest) changed applied mild h =
    elim (Bool-cases (test device)) [
      | inl e ↦
          let here : some ((change device).0 ∷ rest, (change device).1) ≡ some (changed, applied) =
            rw (e, change_first) at h in
          let same : (change device).0 ∷ rest ≡ changed = ground (arith, here) in
          ap (map bare) (sym same) ∙ ap (λ d. d ∷ map bare rest) (mild device)
      | inr e ↦ elim (Option-cases (change_first test change rest)) [
        | inl f ↦ absurd (ground (arith, rw (e, f, change_first) at h))
        | inr ((more, done), f) ↦
            let there : some (device ∷ more, done) ≡ some (changed, applied) =
              rw (e, f, change_first) at h in
            let same : device ∷ more ≡ changed = ground (arith, there) in
            ap (map bare) (sym same)
            ∙ ap (λ ds. bare device ∷ ds) (change_first-bare test change rest more done mild f)
      ]
    ]

change_device-bare :
    (lower : String → String) (reference : String) (change : Change) (devices : List TopologyDevice)
    → ((device : TopologyDevice) → bare (change device).0 ≡ bare device)
    → map bare (change_device lower reference change devices).0 ≡ map bare devices
unfolding change_device
change_device-bare lower reference change devices mild =
    elim (Option-cases (change_first (is_named lower reference) change devices)) [
      | inr ((changed, applied), e) ↦
          rw (e, change_device)
            (change_first-bare (is_named lower reference) change devices changed applied mild e)
      | inl e ↦ elim (Option-cases (change_first (has_id reference) change devices)) [
        | inr ((changed, applied), f) ↦
            rw (e, f, change_device)
              (change_first-bare (has_id reference) change devices changed applied mild f)
        | inl f ↦ rw (e, f, change_device) refl
      ]
    ]

on_device-skeleton :
    (lower : String → String) (document : TopologyDocument) (reference : String) (change : Change)
    → ((device : TopologyDevice) → bare (change device).0 ≡ bare device)
    → skeleton (on_device lower document reference change).0 ≡ skeleton document
on_device-skeleton lower document reference change mild =
    ap
      (λ devices. record {
        devices = devices;
        links = map bare_link document.links;
        groups = document.groups;
      })
      (change_device-bare lower reference change document.devices mild)

change_link-bare :
    (a b : String) (change : TopologyLink → TopologyLink) (links : List TopologyLink)
    → ((link : TopologyLink) → bare_link (change link) ≡ bare_link link)
    → map bare_link (change_link a b change links).0 ≡ map bare_link links
unfolding change_link
change_link-bare a b change [] mild = refl
change_link-bare a b change (link ∷ rest) mild = elim (Bool-cases (links_ids a b link)) [
  | inl e ↦ rw (e, change_link) (ap (λ l. l ∷ map bare_link rest) (mild link))
  | inr e ↦
      rw (e, change_link) (ap (λ ls. bare_link link ∷ ls) (change_link-bare a b change rest mild))
]

change_between-skeleton :
    (lower : String → String) (document : TopologyDocument) (source destination : String)
    (change : TopologyLink → TopologyLink)
    → ((link : TopologyLink) → bare_link (change link) ≡ bare_link link)
    → skeleton (change_between lower document source destination change).0 ≡ skeleton document
unfolding change_between
change_between-skeleton lower document source destination change mild =
    elim (Option-cases (lookup_device lower document.devices source)) [
      | inl e ↦ rw (e, change_between) refl
      | inr (a, e) ↦ elim (Option-cases (lookup_device lower document.devices destination)) [
        | inl f ↦ rw (e, f, change_between) refl
        | inr (b, f) ↦
            rw (e, f, change_between)
              (ap
                (λ links. record {
                  devices = map bare document.devices;
                  links = links;
                  groups = document.groups;
                })
                (change_link-bare a.id b.id change document.links mild))
      ]
    ]

without_route-bare :
    (network : Option String) (routes : Items) (device : TopologyDevice)
    → bare (without_route network routes device).0 ≡ bare device
without_route-bare network Items.nil device = refl
without_route-bare none (Items.cons route rest) device = refl
without_route-bare (some network) (Items.cons route rest) device = refl

routes_value-bare :
    (network : Option String) (value : Option Json) (device : TopologyDevice)
    → bare (routes_change network value device).0 ≡ bare device
routes_value-bare network none device = refl
routes_value-bare network (some (Json.arr routes)) device = without_route-bare network routes device
routes_value-bare network (some Json.null) device = refl
routes_value-bare network (some (Json.flag b)) device = refl
routes_value-bare network (some (Json.number n)) device = refl
routes_value-bare network (some (Json.text t)) device = refl
routes_value-bare network (some (Json.obj fields)) device = refl

apply_one-skeleton :
    (lower : String → String) (document : TopologyDocument) (fault : Fault)
    → skeleton (apply_one lower document fault).0 ≡ skeleton document
unfolding apply_one
apply_one-skeleton lower document (Fault.shutdown_interface device interface) =
    on_device-skeleton lower document device _ (λ d. refl)
apply_one-skeleton lower document (Fault.wrong_address device interface address mask) =
    on_device-skeleton lower document device _ (λ d. refl)
apply_one-skeleton lower document (Fault.wrong_gateway device gateway) =
    on_device-skeleton lower document device _ (λ d. refl)
apply_one-skeleton lower document (Fault.wrong_vlan device interface vlan) =
    on_device-skeleton lower document device _ (λ d. refl)
apply_one-skeleton lower document (Fault.remove_static_route device network) =
    on_device-skeleton lower document device (on_routes network)
      (λ d. routes_value-bare network (field "staticRoutes" (config_of d)) d)
apply_one-skeleton lower document (Fault.disable_link source destination) =
    change_between-skeleton lower document source destination off (λ l. refl)
apply_one-skeleton lower document (Fault.wrong_cable source destination cable) =
    elim (Option-cases (cable_kind cable)) [
      | inl e ↦ rw (e, apply_one) refl
      | inr (kind, e) ↦
          rw (e, apply_one)
            (change_between-skeleton lower document source destination (recable kind) (λ l. refl))
    ]

-- A document has the same outcome of `_validate_structure` after any faults as before them: a lab
-- that was valid stays valid, with the same ports occupied, and one that was not has the same error.
pub apply_faults-validate_structure :
    (lower : String → String) (document : TopologyDocument) (faults : List Fault)
    → validate_structure (apply_faults lower document faults) ≡ validate_structure document
unfolding apply_faults
apply_faults-validate_structure lower document [] = refl
apply_faults-validate_structure lower document (fault ∷ rest) =
    let broken = (apply_one lower document fault).0 in
    apply_faults-validate_structure lower broken rest
    ∙ (sym (validate_structure-skeleton broken)
        ∙ (ap validate_structure (apply_one-skeleton lower document fault)
            ∙ validate_structure-skeleton document))
