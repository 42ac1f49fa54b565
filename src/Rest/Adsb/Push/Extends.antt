-- ===== src/Rest/Adsb/Push/Extends.antt =====
-- The pushes of an ADS-B message, in server/src/rest/api/adsb.rs, only add to the history.
use svc_telemetry.Base.{ℕ, refl, []}
use svc_telemetry.World.{Bytes, return}
use svc_telemetry.World.Extends.{Extends, extends_rules, lift-Extends}
use svc_telemetry.Cache.{TelemetryPools}
use svc_telemetry.Cache.Pool.{TelemetryPool}
use svc_telemetry.Cache.Pool.Extends.{push-Extends, multiple_set-Extends, multiple_get-Extends}
use svc_telemetry.Msg.Adsb.{Libm}
use svc_telemetry.Msg.Netrid.Clock.{Chrono}
use svc_telemetry.Rest.Service.{Service}
use svc_telemetry.Rest.Adsb.Push.{
  AdsbDeku, TypeCoding, CprFormat, even, odd, GisPositionData, GisVelocityData, now,
  gis_identifier_push, gis_position_push, push_even_position, gis_velocity_push, set_cpr,
}

module _ (ch : Chrono) (sv : Service ch) (lib : Libm) (deku : AdsbDeku) where
  now-Extends : (E : Type 0) (k : ℕ) → Extends (now ch sv lib deku {E = E} k)
  unfolding Extends now
  now-Extends E k h = ([], refl)

  pub gis_identifier_push-Extends :
      (identifier : Bytes) (tc : TypeCoding) (category : ℕ)
      → Extends (gis_identifier_push ch sv lib deku identifier tc category)
  unfolding gis_identifier_push
  gis_identifier_push-Extends identifier tc category =
      search (extends_rules, now-Extends, push-Extends sv.backends)

  push_even_position-Extends :
      (pool : TelemetryPool) (p : GisPositionData)
      → Extends (push_even_position ch sv lib deku pool p)
  unfolding push_even_position
  push_even_position-Extends pool p =
      search
        (extends_rules, now-Extends, push-Extends sv.backends, multiple_get-Extends sv.backends)

  pub gis_position_push-Extends :
      (pool : TelemetryPool) (p : GisPositionData)
      → Extends (gis_position_push ch sv lib deku pool p)
  unfolding gis_position_push
  gis_position_push-Extends pool p =
      elim p.odd_flag
        as (λ f.
          Extends (elim f [ odd ↦ return tt | even ↦ push_even_position ch sv lib deku pool p ])) [
            | odd ↦ lift-Extends _
            | even ↦ push_even_position-Extends pool p
          ]

  pub gis_velocity_push-Extends :
      (v : GisVelocityData) → Extends (gis_velocity_push ch sv lib deku v)
  unfolding gis_velocity_push
  gis_velocity_push-Extends v = search (extends_rules, now-Extends, push-Extends sv.backends)

  pub set_cpr-Extends :
      (pools : TelemetryPools) (icao : ℕ) (f : CprFormat) (lat lon : ℕ)
      → Extends (set_cpr ch sv lib deku pools icao f lat lon)
  unfolding set_cpr
  set_cpr-Extends pools icao f lat lon = search (multiple_set-Extends sv.backends)
