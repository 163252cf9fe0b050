-- ===== src/Simulation/Protocols/Endpoint.antt =====
-- What `run_simulation` promises: the network is built, one exchange is run, and it ends.
use networkbasicswebsite.Prelude
use networkbasicswebsite.Prelude.{
  ℕ, ◌≡◌, ◌≢◌, ◌⊎◌, refl, ap, inl, inr, String, Bool, true, false, not, ◌&&◌, ◌||◌, List, [], ◌∷◌,
  Option, none, some, arith, ◌==◌, nat_eq, string_eq, lookup, if◌then◌else◌, Result, ok, raise, Exn,
  diverged, value_error, Ends, Ends-bind, Ends-of_ne, Ends-required, Dict, Result-cases, ne_of_Ends,
  insert, required, validation_error, Bool-cases, Sum-cases, >>=-eq-ok,
}
use networkbasicswebsite.Text.{strip}
use networkbasicswebsite.Ipv4.{parse_address}
use networkbasicswebsite.Topology.{TopologyDevice, TopologyLink, TopologyDocument}
use networkbasicswebsite.Simulation.Trace.{SimulationResult}
use networkbasicswebsite.Simulation.Network.{
  Library, Network, SimDevice, build_network, add_devices, add_links, add_link, build_device,
  build_link,
}
use networkbasicswebsite.Simulation.Forwarding.{◌>>=◌, choose_egress}
use networkbasicswebsite.Simulation.Forwarding.Promises.{start}
use networkbasicswebsite.Simulation.Protocols.Simulate.{
  Protocol, SimulationRequest, Refusal, not_found, invalid, is_dhcp, has_device, simulate,
  simulate_request, run_simulation,
}
use networkbasicswebsite.Simulation.Protocols.Icmp.{arp}
use networkbasicswebsite.Simulation.Protocols.Reported.{IsReported}
use networkbasicswebsite.Simulation.Protocols.Outcomes.{
  Means, simulate-IsReported, simulate-IsValid,
}

build_device-Ends : (lib : Library) (device : TopologyDevice) → Ends (build_device lib device)
unfolding build_device
build_device-Ends lib device = elim (Sum-cases (lib.model_validate device.config)) [
  | inl (fields, e) ↦ rw (e, build_device) tt
  | inr (config, e) ↦ rw (e, build_device) tt
]

add_devices-Ends :
    (lib : Library) (devices : List TopologyDevice) (built : Dict String SimDevice)
    → Ends (add_devices lib devices built)
unfolding add_devices
add_devices-Ends lib [] built = tt
add_devices-Ends lib (device ∷ rest) built =
    Ends-bind (build_device lib device) _ (build_device-Ends lib device)
      (λ made. add_devices-Ends lib rest (insert device.id made built))

add_link-Ends : (net : Network) (link : TopologyLink) → Ends (add_link net link)
unfolding add_link build_link
add_link-Ends net link =
    Ends-bind (build_link net.devices link) _
      (Ends-bind (required (lookup link.source.device_id net.devices)) _ (Ends-required _) (λ a.
        Ends-bind (required (lookup link.target.device_id net.devices)) _ (Ends-required _)
          (λ b. tt)))
      (λ made. tt)

add_links-Ends : (links : List TopologyLink) (net : Network) → Ends (add_links links net)
unfolding add_links
add_links-Ends [] net = tt
add_links-Ends (link ∷ rest) net =
    Ends-bind (add_link net link) _ (add_link-Ends net link) (λ made. add_links-Ends rest made)

pub build_network-Ends :
    (lib : Library) (document : TopologyDocument) → Ends (build_network lib document)
unfolding build_network
build_network-Ends lib document =
    Ends-bind (add_devices lib document.devices []) _ (add_devices-Ends lib document.devices [])
      (λ devices. add_links-Ends document.links _)

-- The test whether a destination is missing.
wanting :
    (dhcp text_empty : Bool)
    → (not dhcp && text_empty) ≡ true
    → (dhcp ≡ false) × (text_empty ≡ true)
wanting true text_empty h = cc
wanting false text_empty h = (refl, h)

proceeding :
    (dhcp : Bool) (text : String) → (not dhcp && text == "") ≡ false → (dhcp ≡ true) ⊎ (text ≢ "")
proceeding true text h = inl refl
proceeding false text h = inr (λ e. absurd (ground (arith, h, (string_eq.eqb_iff text "").1 e)))

module _ (lib : Library) (lower : String → String) (order : List String → List String)
    (request : SimulationRequest) where
  -- The answer is the exception with which the network could not be built, or that of the exchange on
  -- the network of the document; and no loop of it ran out of fuel.
  abbrev pub IsRunOn : Refusal ⊎ Result SimulationResult → Type 0
  IsRunOn outcome =
      (answer : Result SimulationResult) × (outcome ≡ inr answer)
      × (answer ≢ raise diverged)
      × (((exn : Exn) × (build_network lib request.document ≡ raise exn) × (answer ≡ raise exn))
          ⊎ ((net : Network) × (build_network lib request.document ≡ ok net)
              × (answer ≡ simulate_request lower order request net)))

  built_answer :
      (built : Result Network)
      → ((exn : Exn) × (built ≡ raise exn)
          × (Prelude.◌>>=◌ built (simulate_request lower order request) ≡ raise exn))
        ⊎ ((net : Network) × (built ≡ ok net)
            × (Prelude.◌>>=◌ built (simulate_request lower order request)
                ≡ simulate_request lower order request net))
  built_answer (ok net) = inr (net, refl, refl)
  built_answer (raise exn) = inl (exn, refl, refl)

  answer-Ends :
      Ends
        (Prelude.◌>>=◌ (build_network lib request.document) (simulate_request lower order request))
  answer-Ends =
      Ends-bind (build_network lib request.document) _ (build_network-Ends lib request.document)
        (λ net.
          Ends-of_ne (simulate_request lower order request net)
            (simulate-IsValid lower order net request.source_device_id (strip request.destination)
              request.port request.count request.protocol).1)

  -- `run_simulation` refuses a request of a source that is not in the document as not found, and one
  -- without a destination, unless it is for DHCP, as invalid. Any other is answered with the exchange
  -- on the network that is built of the document, or with the exception of building it, and no loop
  -- runs out of fuel.
  pub run_simulation-Ends :
      ((has_device request.source_device_id request.document.devices ≡ false)
        × (run_simulation lib lower order request
            ≡ inl (not_found "That device is not in this topology.")))
      ⊎ ((has_device request.source_device_id request.document.devices ≡ true)
          × (is_dhcp request.protocol ≡ false)
          × (strip request.destination ≡ "")
          × (run_simulation lib lower order request
              ≡ inl (invalid "A destination is required for this protocol.")))
      ⊎ ((has_device request.source_device_id request.document.devices ≡ true)
          × ((is_dhcp request.protocol ≡ true) ⊎ (strip request.destination ≢ ""))
          × IsRunOn (run_simulation lib lower order request))
  unfolding run_simulation
  run_simulation-Ends =
      let device = request.source_device_id in
      let text = strip request.destination in
      elim (Bool-cases (has_device device request.document.devices)) [
        | inr e ↦ inl (e, rw e refl)
        | inl known ↦ elim (Bool-cases (not (is_dhcp request.protocol) && text == "")) [
          | inl e ↦
              let (other, empty) = wanting (is_dhcp request.protocol) (text == "") e in
              inr (inl (known, other, (string_eq.eqb_iff text "").0 empty, rw (known, e) refl))
          | inr e ↦
              let built = built_answer (build_network lib request.document) in
              let answer =
                Prelude.◌>>=◌ (build_network lib request.document)
                  (simulate_request lower order request) in
              let run : IsRunOn (run_simulation lib lower order request) =
                (answer, rw (known, e) refl, ne_of_Ends answer answer-Ends, built) in
              inr (inr (known, proceeding (is_dhcp request.protocol) text e, run))
        ]
      ]

  -- A result that `run_simulation` returns is of a source of the document, and on the network that
  -- was built of it a success means what `Means` says of the protocol: `deliver` delivered the request
  -- of a ping and its reply, the probe of a trace, the query to the first DNS server, or the segment
  -- or datagram that names the port; `resolve_arp` gave the MAC of a live port that holds the address
  -- of the next hop that was chosen for the destination; or a device that `order` gives for the domain
  -- of the DHCP broadcast serves the pool that the leased address is of. A failure names its reason,
  -- and the events are numbered from 1.
  pub run_simulation-IsReported :
      (result : SimulationResult)
      → run_simulation lib lower order request ≡ inr (ok result)
      → (net : Network) × (build_network lib request.document ≡ ok net)
        × (has_device request.source_device_id request.document.devices ≡ true)
        × IsReported
            (Means lower order net request.source_device_id
              (strip request.destination)
              request.port
              request.count
              request.protocol)
            result
  unfolding run_simulation
  run_simulation-IsReported result h =
      elim (Bool-cases (has_device request.source_device_id request.document.devices)) [
        | inr e ↦ absurd (ground (arith, h, e))
        | inl known ↦
            elim (Bool-cases (not (is_dhcp request.protocol) && strip request.destination == "")) [
              | inl e ↦ absurd (ground (arith, h, e, known))
              | inr e ↦
                  let ran : Prelude.◌>>=◌ (build_network lib request.document)
                        (simulate_request lower order request)
                      ≡ ok result =
                    ground (arith, h, e, known) in
                  let (net, built, g) = >>=-eq-ok (build_network lib request.document) _ ran in
                  (
                    net,
                    built,
                    known,
                    simulate-IsReported lower order net request.source_device_id
                        (strip request.destination) request.port request.count request.protocol
                        result g,
                  )
            ]
      ]

-- `arp` to a text that is no IPv4 address raises, also if it is a device's name.
arp-raises :
    (net : Network) (source_id destination : String) (source : SimDevice) (exn : Exn)
    → lookup source_id net.devices ≡ some source
    → parse_address destination ≡ raise exn
    → (arp net source_id destination start).0 ≡ raise exn
unfolding arp choose_egress ◌>>=◌
arp-raises net source_id destination source exn known named = rw (known, arp, named) refl

simulate-arp :
    (lower : String → String) (order : List String → List String) (net : Network)
    (source_id destination : String) (port count : ℕ) (protocol : Protocol) (exn : Exn)
    → protocol ≡ Protocol.arp_protocol
    → (arp net source_id destination start).0 ≡ raise exn
    → (simulate lower order net source_id destination port count protocol start).0 ≡ raise exn
unfolding simulate
simulate-arp lower order net source_id destination port count protocol exn is_arp h = rw is_arp h

-- An ARP request of a device of the network whose destination is not an IPv4 address, such as a
-- device's name, is not answered with a result: the exception of the address parser is raised.
pub run_simulation-arp_raises :
    (lib : Library) (lower : String → String) (order : List String → List String)
    (request : SimulationRequest) (net : Network) (source : SimDevice) (exn : Exn)
    → has_device request.source_device_id request.document.devices ≡ true
    → request.protocol ≡ Protocol.arp_protocol
    → (strip request.destination == "") ≡ false
    → build_network lib request.document ≡ ok net
    → lookup request.source_device_id net.devices ≡ some source
    → parse_address (strip request.destination) ≡ raise exn
    → run_simulation lib lower order request ≡ inr (raise exn)
unfolding run_simulation
run_simulation-arp_raises lib lower order request net source exn listed is_arp given built known
      named =
    let raised =
      arp-raises net request.source_device_id (strip request.destination) source exn known named in
    let simulated =
      simulate-arp lower order net request.source_device_id (strip request.destination) request.port
        request.count request.protocol exn is_arp raised in
    let proceeds : (not (is_dhcp request.protocol) && strip request.destination == "") ≡ false =
      ground (arith, is_arp, given) in
    rw (listed, proceeds, built) (ap inr simulated)
