-- ===== src/Lab/Faults.antt =====
-- backend/app/services/fault_injection.py: a document with the faults of a troubleshooting lab. A
-- device that is found is changed in place: the first of its name, or else the first of its id.
use networkbasicswebsite.Prelude.{
  ℕ, String, Bool, true, false, ◌||◌, Option, none, some, if◌then◌else◌, ◌==◌, nat_eq, string_eq,
}
use networkbasicswebsite.Text.{str}
use networkbasicswebsite.Topology.{Json, Items, Fields, TopologyDevice}

-- The classes behind `FaultBase`; its `id` and `explanation` are not read here.
pub data Fault : Type 0 where
  -- device, interface
  shutdown_interface : String → String → Fault
  -- device, interface, address, mask
  wrong_address : String → String → Option String → Option String → Fault
  -- device, gateway
  wrong_gateway : String → String → Fault
  -- device, interface, vlan
  wrong_vlan : String → String → ℕ → Fault
  -- device, network
  remove_static_route : String → Option String → Fault
  -- source, destination
  disable_link : String → String → Fault
  -- source, destination, cable
  wrong_cable : String → String → String → Fault

-- `d.get(key)` and `d[key] = value` on an object's fields
abbrev pub field : String → Fields → Option Json
field key Fields.end = none
field key (Fields.member name value rest) = if name == key then some value else field key rest

abbrev pub set_field : String → Json → Fields → Fields
set_field key value Fields.end = Fields.member key value Fields.end
set_field key value (Fields.member name old rest) =
    let more = set_field key value rest in
    if name == key then Fields.member name value rest else Fields.member name old more

-- A value that is no object counts as an empty one, as does a missing one.
abbrev pub fields_of : Option Json → Fields
fields_of (some (Json.obj fields)) = fields
fields_of _ = Fields.end

abbrev pub entry_of : String → Fields → Fields
entry_of name config = fields_of (field name (fields_of (field "interfaces" config)))

-- A change of `_interface_config(device, name)`
unfoldable pub change_entry : String → (Fields → Fields) → Fields → Fields
change_entry name change config =
    set_field "interfaces"
      (Json.obj (
        set_field name (Json.obj (change (entry_of name config)))
          (fields_of (field "interfaces" config))))
      config

abbrev pub set_config : Fields → TopologyDevice → TopologyDevice
set_config fields device = record device { config = Json.obj fields }

-- A change of a device, and whether it counts as applied.
abbrev pub Change : Type 0
Change = TopologyDevice → TopologyDevice × Bool

abbrev pub config_of : TopologyDevice → Fields
config_of device = fields_of (some device.config)

abbrev pub set_optional : String → Option String → Fields → Fields
set_optional key none fields = fields
set_optional key (some text) fields = set_field key (Json.text text) fields

abbrev pub shut : Fields → Fields
shut entry = set_field "enabled" (Json.flag false) entry

abbrev pub readdress : Option String → Option String → Fields → Fields
readdress address mask entry =
    set_optional "subnetMask" mask (set_optional "ipAddress" address entry)

abbrev pub move_vlan : ℕ → Fields → Fields
move_vlan vlan entry =
    set_field "accessVlan" (Json.number (str vlan))
      (set_field "switchportMode" (Json.text "access") entry)

abbrev pub on_entry : String → (Fields → Fields) → Change
on_entry name change device =
    (set_config (change_entry name change (config_of device)) device, true)

abbrev pub on_gateway : String → Change
on_gateway gateway device =
    (set_config (set_field "defaultGateway" (Json.text gateway) (config_of device)) device, true)

-- `isinstance(route, dict) and route.get("network") == network`
abbrev pub leads_to : String → Json → Bool
leads_to network (Json.obj route) = elim (field "network" route) [
  | none ↦ false
  | some value ↦ elim value [ Json.text text ↦ text == network | _ ↦ false ]
]
leads_to network _ = false

unfoldable pub other_routes : String → Items → Items
other_routes network Items.nil = Items.nil
other_routes network (Items.cons route rest) =
    let more = other_routes network rest in
    if leads_to network route then more else Items.cons route more

unfoldable pub any_route : String → Items → Bool
any_route network Items.nil = false
any_route network (Items.cons route rest) = leads_to network route || any_route network rest

abbrev pub set_routes : Items → TopologyDevice → TopologyDevice
set_routes routes device =
    set_config (set_field "staticRoutes" (Json.arr routes) (config_of device)) device

abbrev pub without_route : Option String → Items → Change
without_route network Items.nil device = (device, false)
without_route none routes device = (set_routes Items.nil device, true)
without_route (some network) routes device =
    (set_routes (other_routes network routes) device, any_route network routes)

-- `routes` may be missing, or no list.
abbrev pub routes_change : Option String → Option Json → Change
routes_change network (some (Json.arr routes)) device = without_route network routes device
routes_change network _ device = (device, false)

abbrev pub on_routes : Option String → Change
on_routes network device = routes_change network (field "staticRoutes" (config_of device)) device
