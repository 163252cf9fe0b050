-- ===== src/Lab/Find.antt =====
-- backend/app/services/grading.py: the verdict of a rule, and how a rule finds what it names.
-- `lower` is `str.lower`.
use Prim.Native.Char.{code}
use networkbasicswebsite.Prelude.{
  String, Bool, true, false, List, [], ◌∷◌, Option, none, some, if◌then◌else◌, ◌==◌, nat_eq,
  string_eq, lookup, values, Result, raise, value_error,
}
use networkbasicswebsite.Text.{concat, strip, join, present}
use networkbasicswebsite.Ipv4.{Ipv4Network, parse_network}
use networkbasicswebsite.Simulation.Network.{SimInterface, SimDevice, Network}

-- The tuple that a handler returns.
pub record Verdict : Type 0 where
  pub passed : Bool
  pub summary : String
  pub detail : Option String

abbrev pub passes : String → Option String → Verdict
passes summary detail = record { passed = true; summary = summary; detail = detail }

abbrev pub fails : String → String → Verdict
fails summary detail = record { passed = false; summary = summary; detail = some detail }

-- `_missing`
abbrev pub missing : String → Verdict
missing reference =
    fails (concat (reference ∷ " must exist in the topology" ∷ []))
      (concat ("There is no device called " ∷ reference ∷ ". Check the name, or add it." ∷ []))

unfoldable pub named_like : (String → String) → String → List SimDevice → Option SimDevice
named_like lower wanted [] = none
named_like lower wanted (device ∷ rest) =
    let later = named_like lower wanted rest in
    if lower (strip device.name) == wanted then some device else later

-- `_device`
unfoldable pub find_device : (String → String) → Network → String → Option SimDevice
find_device lower net reference =
    elim (named_like lower (lower (strip reference)) (values net.devices)) [
      | some device ↦ some device
      | none ↦ lookup reference net.devices
    ]

unfoldable pub port_like : (String → String) → String → List SimInterface → Option SimInterface
port_like lower wanted [] = none
port_like lower wanted (port ∷ rest) =
    let later = port_like lower wanted rest in
    if lower port.name == wanted then some port else later

-- `_interface`
unfoldable pub find_interface : (String → String) → SimDevice → String → Option SimInterface
find_interface lower device name = elim (lookup name device.interfaces) [
  | some port ↦ some port
  | none ↦ port_like lower (lower (strip name)) (values device.interfaces)
]

abbrev some_texts : List (Option String) → List String
some_texts [] = []
some_texts (text ∷ rest) = elim (present text) [
  | none ↦ some_texts rest
  | some t ↦ t ∷ some_texts rest
]

-- `" ".join(filter(None, texts))`
abbrev pub spaced : List (Option String) → String
spaced texts = join " " (some_texts texts)

-- `text or word`
abbrev pub or_word : String → Option String → String
or_word word text = elim (present text) [ none ↦ word | some t ↦ t ]

-- `text.replace("_", " ")`
unfoldable pub without_underscores : String → String
without_underscores String.[] = ""
without_underscores (String.◌∷◌ c s) =
    let rest = without_underscores s in
    if code c == b'_' then String.◌∷◌ " " rest else String.◌∷◌ c rest

split_slash : String → List String
split_slash String.[] = "" ∷ []
split_slash (String.◌∷◌ c s) = elim (split_slash s) [
  | [] ↦ "" ∷ []
  | part ∷ parts ↦ if code c == b'/' then "" ∷ part ∷ parts else String.◌∷◌ c part ∷ parts
]

network_of_parts : List String → Result Ipv4Network
network_of_parts (address ∷ []) = parse_network address "32"
network_of_parts (address ∷ mask ∷ []) = parse_network address mask
network_of_parts _ = raise value_error

-- `IPv4Network(text, strict=False)` of an address with a prefix length or mask behind a slash, or
-- of a single address
unfoldable pub parse_subnet : String → Result Ipv4Network
unfolding split_slash network_of_parts
parse_subnet text = network_of_parts (split_slash text)
