-- ===== src/Simulation/Protocols/Reported.antt =====
-- What every result of an exchange promises, and the rules for the steps that build results.
use networkbasicswebsite.Prelude.{
  ◌≡◌, refl, String, Bool, true, false, not, Option, none, some, arith, string_eq, lookup, required,
  ok, Ends-required, if◌then◌else◌,
}
use networkbasicswebsite.Simulation.Trace.{SimulationResult}
use networkbasicswebsite.Simulation.Trace.Numbered.{IsNumbered}
use networkbasicswebsite.Simulation.Network.{SimDevice, Network, owns_address}
use networkbasicswebsite.Simulation.Forwarding.{
  M, lift, ◌>>=◌, get_events, DeliveryOutcome, deliver,
}
use networkbasicswebsite.Simulation.Forwarding.Safe.{IsSafe, pure-IsSafe, lift-IsSafe, bind-IsSafe}
use networkbasicswebsite.Simulation.Forwarding.Returned.{IsReturned, returned-IsSafe}
use networkbasicswebsite.Simulation.Forwarding.Delivery.{IsKnown, IsHonest}
use networkbasicswebsite.Simulation.Forwarding.Promises.{deliver-IsSafe}
use networkbasicswebsite.Simulation.Protocols.Report.{report, failed}

-- A success means `Meant` of its summary, a failure names its reason, and the events are numbered
-- from 1.
pub record IsReported (Meant : String → Type 0) (result : SimulationResult) : Type 0 where
  pub meant : result.success ≡ true → Meant result.summary
  pub explained : result.success ≡ false → (reason : String) × (result.failure_reason ≡ some reason)
  pub numbered : IsNumbered result.events

-- A packet that the forwarder carried, from a valid state, and its outcome.
abbrev pub IsSent : Network → SimDevice → String → String → DeliveryOutcome → Type 0
IsSent net source address protocol outcome =
    IsHonest net source address outcome
    × IsReturned net (deliver net source address protocol "") outcome

-- `deliver` delivered the packet that `source` sent to the address: it ended at a device that owns
-- the address.
pub record IsReachable (net : Network) (source : SimDevice) (address protocol : String)
    (outcome : DeliveryOutcome) : Type 0 where
  pub carried : IsReturned net (deliver net source address protocol "") outcome
  pub delivered : outcome.delivered ≡ true
  pub device : SimDevice
  pub known : IsKnown net source device
  pub final : outcome.final_device ≡ some device.id
  pub owns : owns_address device address ≡ true

some-eq_of_required : {A : Type 0} (o : Option A) (a : A) → required o ≡ ok a → o ≡ some a
some-eq_of_required none a h = cc
some-eq_of_required (some b) a h = ground (arith, h)

module _ (net : Network) where
  get_events-IsSafe : IsSafe net IsNumbered get_events
  unfolding get_events
  get_events-IsSafe s v = (v, v.numbered)

  module _ (Meant : String → Type 0) where
    report-IsSafe :
        (success : Bool) (protocol summary : String) (reason hint : Option String)
        → (success ≡ true → Meant summary)
        → (success ≡ false → (text : String) × (reason ≡ some text))
        → IsSafe net (IsReported Meant) (report success protocol summary reason hint)
    unfolding report
    report-IsSafe success protocol summary reason hint h k =
        bind-IsSafe net IsNumbered (IsReported Meant) get_events _ get_events-IsSafe (λ events n.
          pure-IsSafe net (IsReported Meant) _ (record { meant = h; explained = k; numbered = n }))

    pub succeeded-IsSafe :
        (protocol summary : String)
        → Meant summary
        → IsSafe net (IsReported Meant) (report true protocol summary none none)
    succeeded-IsSafe protocol summary h =
        report-IsSafe true protocol summary none none (λ _. h) (λ e. cc)

    pub failed-IsSafe :
        (protocol summary reason : String) (hint : Option String)
        → IsSafe net (IsReported Meant) (failed protocol summary (some reason) hint)
    failed-IsSafe protocol summary reason hint =
        report-IsSafe false protocol summary (some reason) hint (λ e. cc) (λ _. (reason, refl))

    -- A failure that passes on the forwarder's reason.
    pub undelivered-IsSafe :
        (source : SimDevice) (address protocol summary : String) (hint : Option String)
        (outcome : DeliveryOutcome)
        → IsHonest net source address outcome
        → outcome.delivered ≡ false
        → IsSafe net (IsReported Meant) (failed protocol summary outcome.reason hint)
    undelivered-IsSafe source address protocol summary hint outcome honest h =
        report-IsSafe false protocol summary outcome.reason hint (λ e. cc) (λ _. honest.explained h)

    -- The test of `outcome.delivered`.
    pub delivered-IsSafe :
        (delivered : Bool) (lost came : M SimulationResult)
        → (delivered ≡ false → IsSafe net (IsReported Meant) lost)
        → (delivered ≡ true → IsSafe net (IsReported Meant) came)
        → IsSafe net (IsReported Meant) (if not delivered then lost else came)
    delivered-IsSafe true lost came h k = k refl
    delivered-IsSafe false lost came h k = h refl

    -- A delivery, and then what depends on its outcome.
    pub delivery-IsSafe :
        (source : SimDevice) (address protocol : String)
        (next : DeliveryOutcome → M SimulationResult)
        → ((outcome : DeliveryOutcome)
            → IsSent net source address protocol outcome
            → IsSafe net (IsReported Meant) (next outcome))
        → IsSafe net (IsReported Meant) (deliver net source address protocol "" >>= next)
    delivery-IsSafe source address protocol next h =
        bind-IsSafe net (IsSent net source address protocol) (IsReported Meant)
          (deliver net source address protocol "") next
          (returned-IsSafe net (IsHonest net source address)
            (deliver net source address protocol "")
            (deliver-IsSafe net source address protocol ""))
          h

    -- `self.network.devices[id]`, and then what depends on the device.
    pub required_device-IsSafe :
        (id : String) (next : SimDevice → M SimulationResult)
        → ((device : SimDevice)
            → lookup id net.devices ≡ some device
            → IsSafe net (IsReported Meant) (next device))
        → IsSafe net (IsReported Meant) (lift (required (lookup id net.devices)) >>= next)
    required_device-IsSafe id next h =
        bind-IsSafe net (λ device. lookup id net.devices ≡ some device) (IsReported Meant)
          (lift (required (lookup id net.devices))) next
          (lift-IsSafe net _ (required (lookup id net.devices)) (Ends-required _)
            (λ device e. some-eq_of_required (lookup id net.devices) device e))
          h

pub deliver-IsReachable :
    (net : Network) (source : SimDevice) (address protocol : String) (outcome : DeliveryOutcome)
    → IsSent net source address protocol outcome
    → outcome.delivered ≡ true
    → IsReachable net source address protocol outcome
deliver-IsReachable net source address protocol outcome (honest, carried) h =
    let (device, known, final, owns) = honest.arrived h in
    record {
      carried = carried;
      delivered = h;
      device = device;
      known = known;
      final = final;
      owns = owns;
    }
