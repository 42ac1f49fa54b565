-- ===== src/Rest/Adsb/Push/Quiet.antt =====
-- The pushes of an ADS-B message leave a measure of the history as it is, if it gives their commands no
-- weight: server/src/rest/api/adsb.rs.
use svc_telemetry.Base.{ℕ, refl}
use svc_telemetry.World.{Bytes, Event, return}
use svc_telemetry.World.Tally.{quiet_rules, IsQuiet, lift-IsQuiet}
use svc_telemetry.Cache.{TelemetryPools}
use svc_telemetry.Cache.Pool.{TelemetryPool}
use svc_telemetry.Cache.Pool.Quiet.{
  IsIdle, push-IsQuiet, multiple_set-IsQuiet, multiple_get-IsQuiet,
}
use svc_telemetry.Msg.Adsb.{Libm}
use svc_telemetry.Msg.Netrid.Clock.{Chrono}
use svc_telemetry.Rest.Service.{Service}
use svc_telemetry.Rest.Adsb.Push.{
  AdsbDeku, TypeCoding, CprFormat, even, odd, GisPositionData, GisVelocityData, now,
  gis_identifier_push, gis_position_push, push_even_position, gis_velocity_push, set_cpr,
}

module _ (ch : Chrono) (sv : Service ch) (lib : Libm) (deku : AdsbDeku) (weigh : Event → ℕ)
    (idle : IsIdle sv.backends weigh) where
  now-IsQuiet : (E : Type 0) (k : ℕ) → IsQuiet weigh (now ch sv lib deku {E = E} k)
  unfolding IsQuiet now
  now-IsQuiet E k h = refl

  pub gis_identifier_push-IsQuiet :
      (identifier : Bytes) (tc : TypeCoding) (category : ℕ)
      → IsQuiet weigh (gis_identifier_push ch sv lib deku identifier tc category)
  unfolding gis_identifier_push
  gis_identifier_push-IsQuiet identifier tc category =
      search (quiet_rules, now-IsQuiet, push-IsQuiet sv.backends weigh idle)

  push_even_position-IsQuiet :
      (pool : TelemetryPool) (p : GisPositionData)
      → IsQuiet weigh (push_even_position ch sv lib deku pool p)
  unfolding push_even_position
  push_even_position-IsQuiet pool p = search (
    quiet_rules,
    now-IsQuiet,
    push-IsQuiet sv.backends weigh idle,
    multiple_get-IsQuiet sv.backends weigh idle,
  )

  pub gis_position_push-IsQuiet :
      (pool : TelemetryPool) (p : GisPositionData)
      → IsQuiet weigh (gis_position_push ch sv lib deku pool p)
  unfolding gis_position_push
  gis_position_push-IsQuiet pool p =
      elim p.odd_flag
        as (λ f.
          IsQuiet weigh
            (elim f [ odd ↦ return tt | even ↦ push_even_position ch sv lib deku pool p ])) [
              | odd ↦ lift-IsQuiet weigh _
              | even ↦ push_even_position-IsQuiet pool p
            ]

  pub gis_velocity_push-IsQuiet :
      (v : GisVelocityData) → IsQuiet weigh (gis_velocity_push ch sv lib deku v)
  unfolding gis_velocity_push
  gis_velocity_push-IsQuiet v =
      search (quiet_rules, now-IsQuiet, push-IsQuiet sv.backends weigh idle)

  pub set_cpr-IsQuiet :
      (pools : TelemetryPools) (icao : ℕ) (f : CprFormat) (lat lon : ℕ)
      → IsQuiet weigh (set_cpr ch sv lib deku pools icao f lat lon)
  unfolding set_cpr
  set_cpr-IsQuiet pools icao f lat lon = search (multiple_set-IsQuiet sv.backends weigh idle)
