-- ===== src/Lab/Judged.antt =====
-- Rules for the steps that judge a rule, and the traffic rules.
use networkbasicswebsite.Prelude.{
  ℕ, ◌≡◌, refl, inl, inr, String, true, false, List, Option, none, some, arith, string_eq,
  option_eq, Bool-cases, Result, ok, Ends,
}
use networkbasicswebsite.Simulation.Trace.{SimulationResult}
use networkbasicswebsite.Simulation.Network.{SimDevice, Network}
use networkbasicswebsite.Simulation.Forwarding.{M}
use networkbasicswebsite.Simulation.Forwarding.Fresh.{fresh, IsRun, fresh-IsSafe}
use networkbasicswebsite.Simulation.Forwarding.Safe.{IsSafe, pure-IsSafe, bind-IsSafe}
use networkbasicswebsite.Simulation.Protocols.{ping, dns, tcp, dhcp}
use networkbasicswebsite.Simulation.Protocols.Reported.{IsReported}
use networkbasicswebsite.Simulation.Protocols.Reaches.{PingMeans, ping-IsSafe}
use networkbasicswebsite.Simulation.Protocols.Exchanges.{IsNamed, dns-IsSafe}
use networkbasicswebsite.Simulation.Protocols.Streams.{TcpMeans, tcp-IsSafe}
use networkbasicswebsite.Simulation.Protocols.Leases.{IsLeased, dhcp-IsSafe}
use networkbasicswebsite.Lab.Rules.{Check}
use networkbasicswebsite.Lab.Find.{Verdict, missing, find_device}
use networkbasicswebsite.Lab.Traffic.{
  default_count, judged, ping_verdict, no_ping_verdict, reach_verdict, check_ping, check_no_ping,
  check_dns, check_port, check_dhcp_lease,
}
use networkbasicswebsite.Lab.Demands.{OfDevice, Succeeds, Demands}

-- The verdict is a pass only if `D` holds.
abbrev pub IsSound : Type 0 → Verdict → Type 0
IsSound D verdict = verdict.passed ≡ true → D

-- A judgement that ends, and whose verdict is sound.
abbrev pub IsJudged : Type 0 → Result Verdict → Type 0
IsJudged D r = Ends r × ((v : Verdict) → r ≡ ok v → IsSound D v)

module _ (lower : String → String) (order : List String → List String) (net : Network) where
  judged_found-IsSafe :
      (D : Type 0) (Means : SimDevice → String → Type 0) (reference : String)
      (found : Option SimDevice) (run : SimDevice → M SimulationResult)
      (verdict : SimulationResult → Verdict)
      → ((device : SimDevice) → IsSafe net (IsReported (Means device)) (run device))
      → ((device : SimDevice) (result : SimulationResult)
          → found ≡ some device
          → IsReported (Means device) result
          → IsRun net (run device) result
          → IsSound D (verdict result))
      → IsSafe net (IsSound D) (judged reference found run verdict)
  unfolding judged
  judged_found-IsSafe D Means reference none run verdict h k =
      pure-IsSafe net (IsSound D) (missing reference) (λ p. cc)
  judged_found-IsSafe D Means reference (some device) run verdict h k =
      bind-IsSafe net (λ result. IsReported (Means device) result × IsRun net (run device) result)
        (IsSound D) (fresh (run device)) _
        (fresh-IsSafe net (IsReported (Means device)) (run device) (h device))
        (λ result both.
          pure-IsSafe net (IsSound D) (verdict result) (k device result refl both.0 both.1))

  -- A traffic rule is as sound as the verdict on a reported result.
  judged-IsSafe :
      (D : SimDevice → Type 0) (Means : SimDevice → String → Type 0) (reference : String)
      (run : SimDevice → M SimulationResult) (verdict : SimulationResult → Verdict)
      → ((device : SimDevice) → IsSafe net (IsReported (Means device)) (run device))
      → ((device : SimDevice) (result : SimulationResult)
          → IsReported (Means device) result
          → IsRun net (run device) result
          → IsSound (D device) (verdict result))
      → IsSafe net
          (IsSound (OfDevice lower order net reference D))
          (judged reference (find_device lower net reference) run verdict)
  judged-IsSafe D Means reference run verdict h k =
      judged_found-IsSafe (OfDevice lower order net reference D) Means reference
        (find_device lower net reference) run verdict h
        (λ device result e reported ran p. (device, e, k device result reported ran p))

  reach_verdict-IsSound :
      (Means : String → Type 0) (run : M SimulationResult) (summary : String)
      (result : SimulationResult)
      → IsReported Means result
      → IsRun net run result
      → IsSound (Succeeds lower order net run Means) (reach_verdict summary result)
  reach_verdict-IsSound Means run summary result reported ran p = elim (Bool-cases result.success) [
    | inl e ↦ (result, ran, e, reported.meant e)
    | inr e ↦ absurd (ground (arith, e, p))
  ]

  ping_verdict-IsSound :
      (Means : String → Type 0) (run : M SimulationResult) (summary : String)
      (result : SimulationResult)
      → IsReported Means result
      → IsRun net run result
      → IsSound (Succeeds lower order net run Means) (ping_verdict summary result)
  ping_verdict-IsSound Means run summary result reported ran p = elim (Bool-cases result.success) [
    | inl e ↦ (result, ran, e, reported.meant e)
    | inr e ↦ absurd (ground (arith, e, p))
  ]

  no_ping_verdict-IsSound :
      (summary : String) (result : SimulationResult)
      → IsSound (result.success ≡ false) (no_ping_verdict summary result)
  no_ping_verdict-IsSound summary result p = elim (Bool-cases result.success) [
    | inl e ↦ absurd (ground (arith, e, p))
    | inr e ↦ e
  ]

  pub check_ping-IsSafe :
      (source destination : String)
      → IsSafe net
          (IsSound (Demands lower order net (Check.ping_rule source destination)))
          (check_ping lower order net source destination)
  unfolding check_ping
  check_ping-IsSafe source destination =
      judged-IsSafe
        (λ device.
          Succeeds lower order net (ping lower net device.id destination default_count)
            (PingMeans lower net device.id destination default_count))
        (λ device. PingMeans lower net device.id destination default_count) source
        (λ device. ping lower net device.id destination default_count) _
        (λ device. ping-IsSafe lower net device.id destination default_count)
        (λ device result reported ran. ping_verdict-IsSound _ _ _ result reported ran)

  pub check_no_ping-IsSafe :
      (source destination : String)
      → IsSafe net
          (IsSound (Demands lower order net (Check.no_ping_rule source destination)))
          (check_no_ping lower order net source destination)
  unfolding check_no_ping
  check_no_ping-IsSafe source destination =
      judged-IsSafe _ _ source _ _
        (λ device. ping-IsSafe lower net device.id destination default_count)
        (λ device result reported ran p. (result, ran, no_ping_verdict-IsSound _ result p))

  pub check_dns-IsSafe :
      (source hostname : String)
      → IsSafe net
          (IsSound (Demands lower order net (Check.dns_rule source hostname)))
          (check_dns lower order net source hostname)
  unfolding check_dns
  check_dns-IsSafe source hostname =
      judged-IsSafe
        (λ device.
          Succeeds lower order net (dns lower net device.id hostname)
            (IsNamed lower net device.id hostname))
        (λ device. IsNamed lower net device.id hostname) source
        (λ device. dns lower net device.id hostname) _
        (λ device. dns-IsSafe lower net device.id hostname)
        (λ device result reported ran. reach_verdict-IsSound _ _ _ result reported ran)

  pub check_port-IsSafe :
      (source destination : String) (port : ℕ)
      → IsSafe net
          (IsSound (Demands lower order net (Check.port_rule source destination port)))
          (check_port lower order net source destination port)
  unfolding check_port
  check_port-IsSafe source destination port =
      judged-IsSafe
        (λ device.
          Succeeds lower order net (tcp lower net device.id destination port)
            (TcpMeans lower net device.id destination port))
        (λ device. TcpMeans lower net device.id destination port) source
        (λ device. tcp lower net device.id destination port) _
        (λ device. tcp-IsSafe lower net device.id destination port)
        (λ device result reported ran. reach_verdict-IsSound _ _ _ result reported ran)

  pub check_dhcp_lease-IsSafe :
      (source : String)
      → IsSafe net
          (IsSound (Demands lower order net (Check.dhcp_lease_rule source)))
          (check_dhcp_lease lower order net source)
  unfolding check_dhcp_lease
  check_dhcp_lease-IsSafe source =
      judged-IsSafe
        (λ device.
          Succeeds lower order net (dhcp order net device.id) (IsLeased order net device.id))
        (λ device. IsLeased order net device.id) source (λ device. dhcp order net device.id) _
        (λ device. dhcp-IsSafe order net device.id)
        (λ device result reported ran. reach_verdict-IsSound _ _ _ result reported ran)
