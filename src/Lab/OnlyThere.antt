-- ===== src/Lab/OnlyThere.antt =====
-- A fault on an interface changes the entry that it names, and nothing else of the configuration.
use networkbasicswebsite.Prelude.{
  ◌≡◌, refl, ap, sym, ◌∙◌, inl, inr, String, Bool, true, false, Option, some, arith, if◌then◌else◌,
  ◌==◌, string_eq, Bool-cases,
}
use networkbasicswebsite.Topology.{Json, Fields}
use networkbasicswebsite.Lab.Faults.{field, set_field, fields_of, entry_of, change_entry}

field-set_field :
    (key other : String) (value : Json) (fields : Fields)
    → field other (set_field key value fields)
      ≡ (if key == other then some value else field other fields)
field-set_field key other value Fields.end = refl
field-set_field key other value (Fields.member name old rest) = elim (Bool-cases (name == key)) [
  | inl same ↦
      let is : name ≡ key = (string_eq.eqb_iff name key).0 same in
      elim (Bool-cases (key == other)) [
        | inl e ↦ let e' : (name == other) ≡ true = rw (is, e) refl in rw (same, e, e', field) refl
        | inr e ↦ let e' : (name == other) ≡ false = rw (is, e) refl in rw (same, e, e', field) refl
      ]
  | inr differs ↦ elim (Bool-cases (name == other)) [
    | inr e ↦ rw (differs, e, field) (field-set_field key other value rest)
    | inl e ↦ elim (Bool-cases (key == other)) [
      | inr f ↦ rw (differs, e, f, field) refl
      | inl f ↦
          let is : name ≡ other = (string_eq.eqb_iff name other).0 e in
          let it : key ≡ other = (string_eq.eqb_iff key other).0 f in
          let same : (name == key) ≡ true = (string_eq.eqb_iff name key).1 (is ∙ sym it) in
          absurd (ground (arith, same, differs))
    ]
  ]
]

fields_of-if :
    (test : Bool) (there : Fields) (before : Option Json)
    → fields_of (if test then some (Json.obj there) else before)
      ≡ (if test then there else fields_of before)
fields_of-if true there before = refl
fields_of-if false there before = refl

-- After a change of an interface's entry, that entry is the changed one, the entries of the other
-- interfaces are what they were, and so is every other field of the configuration.
pub change_entry-entry_of :
    (name other key : String) (change : Fields → Fields) (config : Fields)
    → (entry_of other (change_entry name change config)
        ≡ (if name == other then change (entry_of name config) else entry_of other config))
      × (("interfaces" == key) ≡ false
          → field key (change_entry name change config) ≡ field key config)
unfolding change_entry
change_entry-entry_of name other key change config =
    let interfaces = fields_of (field "interfaces" config) in
    let entry = Json.obj (change (entry_of name config)) in
    let written =
      field-set_field "interfaces" "interfaces" (Json.obj (set_field name entry interfaces))
        config in
    let inner = field-set_field name other entry interfaces in
    (
      ap (λ v. fields_of (field other (fields_of v))) written
          ∙ (ap fields_of inner
              ∙ fields_of-if (name == other) (change (entry_of name config))
                  (field other interfaces)),
      λ differs.
          field-set_field "interfaces" key (Json.obj (set_field name entry interfaces)) config
          ∙ rw differs refl,
    )
