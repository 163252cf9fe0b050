-- ===== src/Lab/Traffic.antt =====
-- The rules that are graded by a run of the simulator. Each run has a new `Simulator` on the
-- grader's network.
use networkbasicswebsite.Prelude.{
  ℕ, String, List, [], ◌∷◌, Option, none, some, if◌then◌else◌, ◌==◌, string_eq,
}
use networkbasicswebsite.Text.{concat, str}
use networkbasicswebsite.Simulation.Trace.{SimulationResult}
use networkbasicswebsite.Simulation.Network.{SimDevice, Network}
use networkbasicswebsite.Simulation.Forwarding.{M, pure, ◌>>=◌}
use networkbasicswebsite.Simulation.Forwarding.Fresh.{fresh}
use networkbasicswebsite.Simulation.Protocols.{ping, dns, tcp, dhcp}
use networkbasicswebsite.Lab.Find.{Verdict, passes, fails, missing, find_device, spaced}

-- `ping` has a default of 4 requests.
abbrev pub default_count : ℕ
default_count = 4

-- `detail or result.summary`
abbrev pub or_summary : SimulationResult → String → String
or_summary result detail = if detail == "" then result.summary else detail

abbrev pub ping_verdict : String → SimulationResult → Verdict
ping_verdict summary result =
    if result.success
    then passes summary (some result.summary)
    else fails summary (or_summary result (spaced (result.failure_reason ∷ result.hint ∷ [])))

abbrev pub no_ping_verdict : String → SimulationResult → Verdict
no_ping_verdict summary result =
    if result.success
    then fails summary
        (concat ("Traffic got through: " ∷ result.summary ∷ ". These two must be separated." ∷ []))
    else passes summary (some "Traffic is correctly blocked.")

abbrev pub reach_verdict : String → SimulationResult → Verdict
reach_verdict summary result =
    if result.success
    then passes summary (some result.summary)
    else fails summary (spaced (result.failure_reason ∷ result.hint ∷ []))

-- A run of the simulator from a device, and the verdict on its result.
unfoldable pub judged :
    String
    → Option SimDevice
    → (SimDevice → M SimulationResult)
    → (SimulationResult → Verdict)
    → M Verdict
judged reference none run verdict = pure (missing reference)
judged reference (some source) run verdict = do result ← fresh (run source); pure (verdict result)

module _ (lower : String → String) (order : List String → List String) (net : Network) where
  -- `_check_ping`
  unfoldable pub check_ping : String → String → M Verdict
  check_ping source destination =
      judged source (find_device lower net source)
        (λ device. ping lower net device.id destination default_count)
        (ping_verdict (concat (source ∷ " must be able to reach " ∷ destination ∷ [])))

  -- `_check_no_ping`
  unfoldable pub check_no_ping : String → String → M Verdict
  check_no_ping source destination =
      judged source (find_device lower net source)
        (λ device. ping lower net device.id destination default_count)
        (no_ping_verdict (concat (source ∷ " must NOT be able to reach " ∷ destination ∷ [])))

  -- `_check_dns`
  unfoldable pub check_dns : String → String → M Verdict
  check_dns source hostname =
      judged source (find_device lower net source) (λ device. dns lower net device.id hostname)
        (reach_verdict (concat (source ∷ " must be able to resolve " ∷ hostname ∷ [])))

  -- `_check_port`
  unfoldable pub check_port : String → String → ℕ → M Verdict
  check_port source destination port =
      judged source (find_device lower net source)
        (λ device. tcp lower net device.id destination port)
        (reach_verdict
          (concat (source ∷ " must reach " ∷ destination ∷ " on TCP " ∷ str port ∷ [])))

  -- `_check_dhcp_lease`
  unfoldable pub check_dhcp_lease : String → M Verdict
  check_dhcp_lease source =
      judged source (find_device lower net source) (λ device. dhcp order net device.id)
        (reach_verdict (concat (source ∷ " must be able to lease an address over DHCP" ∷ [])))
