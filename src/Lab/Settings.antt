-- ===== src/Lab/Settings.antt =====
-- The rules that are graded by reading the network: addresses, gateways, routes, VLANs, pools.
use networkbasicswebsite.Prelude.{
  String, Bool, true, false, List, [], ◌∷◌, Option, none, some, if◌then◌else◌, ◌==◌, nat_eq,
  string_eq, option_eq, values, map, Result, ok, raise, ◌>>=◌,
}
use networkbasicswebsite.Text.{concat, strip, join, present, shown}
use networkbasicswebsite.Ipv4.{Ipv4Network, parse_address, contains, str_network}
use networkbasicswebsite.Simulation.Network.{SimInterface, SimDevice, Network}
use networkbasicswebsite.Lab.Find.{
  Verdict, passes, fails, missing, find_device, find_interface, or_word, parse_subnet,
}

abbrev pub no_interface : SimDevice → String → String
no_interface device name = concat (device.name ∷ " has no interface called " ∷ name ∷ "." ∷ [])

-- The tests of `_check_interface_address`, each with what it finds wrong.
abbrev pub address_fault : Option String → SimInterface → Option String
address_fault (some address) port =
    if port.ip == some address
    then none
    else some (concat ("It is configured with " ∷ or_word "nothing" port.ip ∷ "." ∷ []))
address_fault none port = elim (present port.ip) [
  | none ↦ some "It has no address configured."
  | some ip ↦ none
]

abbrev pub mask_fault : Option String → SimInterface → Option String
mask_fault none port = none
mask_fault (some mask) port =
    if port.mask == some mask
    then none
    else some
        (concat ("The mask is " ∷ or_word "unset" port.mask ∷ ", expected " ∷ mask ∷ "." ∷ []))

abbrev pub state_fault : Option Bool → Bool → Option String
state_fault (some true) false =
    some "The interface is administratively down. It needs 'no shutdown'."
state_fault (some false) true = some "The interface is up. It should be shut."
state_fault _ _ = none

abbrev pub or_else : Option String → Option String → Option String
or_else (some text) later = some text
or_else none later = later

abbrev pub judged_fault : String → SimInterface → Option String → Verdict
judged_fault summary port (some fault) = fails summary fault
judged_fault summary port none =
    passes summary
      (some (concat (shown port.ip ∷ "/" ∷ shown port.mask ∷ " and the interface is up." ∷ [])))

module _ (lower : String → String) (net : Network) where
  -- What a rule says of its device, or that there is none of that name.
  unfoldable pub of_device : String → (SimDevice → Result Verdict) → Result Verdict
  of_device reference judge = elim (find_device lower net reference) [
    | none ↦ ok (missing reference)
    | some device ↦ judge device
  ]

  -- What a rule says of its interface, or that the device has none of that name.
  unfoldable pub of_interface : SimDevice → String → String → (SimInterface → Verdict) → Verdict
  of_interface device name summary judge = elim (find_interface lower device name) [
    | none ↦ fails summary (no_interface device name)
    | some port ↦ judge port
  ]

  -- `_check_interface_address`
  unfoldable pub check_interface_address :
      String → String → Option String → Option String → Option Bool → Result Verdict
  check_interface_address reference name address mask enabled = of_device reference λ device.
      let summary = concat (
        reference ∷ " " ∷ name ∷ " must be configured with " ∷ or_word "an address" address ∷ []) in
      ok (
        of_interface device name summary λ port. judged_fault summary port (
          or_else (address_fault address port)
            (or_else (mask_fault mask port) (state_fault enabled port.enabled))))

-- The interfaces of a device that a rule is about.
unfoldable pub candidates : (String → String) → SimDevice → Option String → List SimInterface
candidates lower device none = values device.interfaces
candidates lower device (some name) = elim (find_interface lower device name) [
  | none ↦ []
  | some port ↦ port ∷ []
]

unfoldable pub addressed : List SimInterface → List SimInterface
addressed [] = []
addressed (port ∷ rest) =
    let more = addressed rest in elim (present port.ip) [ none ↦ more | some ip ↦ port ∷ more ]

-- The first of the interfaces whose address is in the network.
unfoldable pub first_inside : Ipv4Network → List SimInterface → Result (Option SimInterface)
first_inside n [] = ok none
first_inside n (port ∷ rest) =
    let later = first_inside n rest in
    parse_address (or_word "" port.ip) >>= λ a. if contains n a then ok (some port) else later

abbrev pub listed : SimInterface → String
listed port = concat (port.name ∷ " " ∷ shown port.ip ∷ [])

abbrev pub inside_verdict : String → Ipv4Network → List SimInterface → Option SimInterface → Verdict
inside_verdict summary n ports (some port) =
    passes summary (some (concat (port.name ∷ " is " ∷ shown port.ip ∷ "." ∷ [])))
inside_verdict summary n ports none = fails summary (
    concat
      ("Found " ∷ join ", " (map listed ports) ∷ ", which is outside " ∷ str_network n ∷ "." ∷ []))

abbrev pub malformed : String → Verdict
malformed network =
    fails (concat (network ∷ " must be a valid subnet" ∷ [])) "The lab's rule is malformed."

unfoldable pub subnet_verdict :
    SimDevice → String → Ipv4Network → List SimInterface → Result Verdict
subnet_verdict device summary n [] =
    ok (fails summary (concat (device.name ∷ " has no address configured there." ∷ [])))
subnet_verdict device summary n (port ∷ rest) =
    first_inside n (port ∷ rest) >>= λ found. ok (inside_verdict summary n (port ∷ rest) found)

-- A rule's subnet, if it can be read.
unfoldable pub with_subnet : String → (Ipv4Network → Result Verdict) → Result Verdict
with_subnet network judge = elim (parse_subnet network) [
  | raise _ ↦ ok (malformed network)
  | ok n ↦ judge n
]

abbrev pub target_text : Option String → String
target_text none = "Its address"
target_text (some name) = name

-- `_check_in_subnet`
unfoldable pub check_in_subnet :
    (String → String) → Network → String → Option String → String → Result Verdict
check_in_subnet lower net reference name network = of_device lower net reference λ device.
    with_subnet network λ n.
      subnet_verdict device
        (concat (reference ∷ " — " ∷ target_text name ∷ " must be inside " ∷ str_network n ∷ [])) n
        (addressed (candidates lower device name))

-- `_check_gateway`
unfoldable pub check_gateway : (String → String) → Network → String → String → Result Verdict
check_gateway lower net reference gateway = of_device lower net reference λ device.
    let summary = concat (reference ∷ " must use " ∷ gateway ∷ " as its default gateway" ∷ []) in
    if device.config.default_gateway == some gateway
    then ok (passes summary none)
    else ok (
        fails summary
          (concat ("Its gateway is " ∷ or_word "not set" device.config.default_gateway ∷ "." ∷ [])))

-- `_check_hostname`
unfoldable pub check_hostname : (String → String) → Network → String → String → Result Verdict
check_hostname lower net reference hostname = of_device lower net reference λ device.
    let summary = concat (reference ∷ " must have the hostname " ∷ hostname ∷ []) in
    let actual = device.config.hostname in
    if lower (strip actual) == lower (strip hostname)
    then ok (passes summary none)
    else ok (fails summary (concat ("Its hostname is " ∷ or_word "unset" (some actual) ∷ "." ∷ [])))
