-- ===== src/Rest/Adsb/Weights.antt =====
-- What the ADS-B endpoint of server/src/rest/api/adsb.rs adds to a measure of the history.
use svc_telemetry.Base.{ℕ, ◌+◌, ◌≤◌, arith, Bool-cases, inl, inr, ok_or, length, ◌==◌}
use svc_telemetry.World.{Bytes, Event, insert, publish, Io, ◌>>=◌, or_err, pipeline}
use svc_telemetry.World.Tally.{
  quiet_rules, tally, IsQuiet, Adds, IsQuiet-Adds, bind-Adds, quiet_bind-Adds, lift-IsQuiet,
}
use svc_telemetry.Amqp.{exchange_name_telemetry, routing_key_adsb}
use svc_telemetry.Cache.{TelemetryPools, bytes_to_key}
use svc_telemetry.Cache.Pool.{increment}
use svc_telemetry.Cache.Pool.Pipelines.{increment_steps, increment_history}
use svc_telemetry.Cache.Pool.Quiet.{IsIdle}
use svc_telemetry.Msg.Adsb.{Libm, get_adsb_icao_address, get_adsb_message_type}
use svc_telemetry.Msg.Netrid.Clock.{Chrono}
use svc_telemetry.Rest.Status.{StatusCode, bad_request, internal_server_error}
use svc_telemetry.Rest.Service.{Service}
use svc_telemetry.Rest.Adsb.Push.{
  AdsbDeku, Me, identification, airborne_position, velocity, unrecognized, Packet, not_adsb,
  adsb_format,
}
use svc_telemetry.Rest.Adsb.Push.Quiet.{
  gis_identifier_push-IsQuiet, gis_position_push-IsQuiet, gis_velocity_push-IsQuiet,
  set_cpr-IsQuiet,
}
use svc_telemetry.Rest.Adsb.Stored.{unpacked}
use svc_telemetry.Rest.Adsb.{
  process_me, store_packet, process_frame, process_packet, on_count, adsb, cache_expire_ms_adsb,
}

-- The weight of the message and of the record for svc-storage is at most `n`.
abbrev pub IsLight : (Event → ℕ) → Bytes → ℕ → Type 0
IsLight weigh payload n =
    (icao : ℕ)
    → weigh (insert icao (get_adsb_message_type payload) payload)
        + weigh (publish exchange_name_telemetry routing_key_adsb payload)
      ≤ n

module _ (ch : Chrono) (sv : Service ch) (lib : Libm) (deku : AdsbDeku) (weigh : Event → ℕ)
    (idle : IsIdle sv.backends weigh) where
  process_me-IsQuiet :
      (pools : TelemetryPools) (icao : ℕ) (me : Me)
      → IsQuiet weigh (process_me ch sv lib deku pools icao me)
  unfolding process_me
  process_me-IsQuiet pools icao (identification tc ca cn) =
      search (quiet_rules, gis_identifier_push-IsQuiet ch sv lib deku weigh idle)
  process_me-IsQuiet pools icao (airborne_position f lat lon alt) = search (
    quiet_rules,
    gis_position_push-IsQuiet ch sv lib deku weigh idle,
    set_cpr-IsQuiet ch sv lib deku weigh idle,
  )
  process_me-IsQuiet pools icao (velocity st sub sign v) =
      search (quiet_rules, gis_velocity_push-IsQuiet ch sv lib deku weigh idle)
  process_me-IsQuiet pools icao unrecognized = lift-IsQuiet weigh _

  store_packet-Adds :
      (icao : ℕ) (payload : Bytes) (count n : ℕ)
      → IsLight weigh payload n
      → Adds weigh n (store_packet ch sv lib deku icao payload count)
  unfolding Adds store_packet tally
  store_packet-Adds icao payload count n light h = ground (arith, light icao)

  process_frame-Adds :
      (pools : TelemetryPools) (payload : Bytes) (count n : ℕ) (p : Packet)
      → IsLight weigh payload n
      → Adds weigh n (process_frame ch sv lib deku pools payload count p)
  unfolding process_frame
  process_frame-Adds pools payload count n not_adsb light =
      IsQuiet-Adds weigh _ n (lift-IsQuiet weigh _)
  process_frame-Adds pools payload count n (adsb_format address me) light =
      let icao = get_adsb_icao_address address in
      quiet_bind-Adds weigh (process_me ch sv lib deku pools icao me) _ n
        (process_me-IsQuiet pools icao me) λ u. store_packet-Adds icao payload count n light

  pub process_packet-Adds :
      (pools : TelemetryPools) (payload : Bytes) (count n : ℕ)
      → IsLight weigh payload n
      → Adds weigh n (process_packet ch sv lib deku pools payload count)
  unfolding process_packet
  process_packet-Adds pools payload count n light =
      quiet_bind-Adds weigh _ _ n (lift-IsQuiet weigh (ok_or (deku.from_bytes payload) bad_request))
        λ p. process_frame-Adds pools payload count n p light

  on_count-Adds :
      (count n : ℕ) (p : Io StatusCode ℕ)
      → Adds weigh n p
      → Adds weigh n (on_count ch sv lib deku count p)
  unfolding on_count Adds
  on_count-Adds count n p a h = ground (arith, (a h).0, (a h).1)

  increment-Adds :
      (pools : TelemetryPools) (payload : Bytes)
      → Adds weigh
          (weigh
            (pipeline (increment_steps pools.adsb (bytes_to_key payload) cache_expire_ms_adsb)))
          (or_err {E = StatusCode}
            (increment sv.backends pools.adsb (bytes_to_key payload) cache_expire_ms_adsb)
            internal_server_error)
  unfolding Adds tally
  increment-Adds pools payload h = ground (
    arith,
    increment_history sv.backends pools.adsb (bytes_to_key payload) cache_expire_ms_adsb h,
  )

  counted-Adds :
      (pools : TelemetryPools) (payload : Bytes) (n : ℕ)
      → IsLight weigh payload n
      → Adds weigh
          (weigh (pipeline (increment_steps pools.adsb (bytes_to_key payload) cache_expire_ms_adsb))
            + n)
          (or_err
              (increment sv.backends pools.adsb (bytes_to_key payload) cache_expire_ms_adsb)
              internal_server_error
            >>= λ c. on_count ch sv lib deku c (process_packet ch sv lib deku pools payload c))
  counted-Adds pools payload n light = bind-Adds weigh _ _ _ n (increment-Adds pools payload) λ c.
      on_count-Adds c n (process_packet ch sv lib deku pools payload c)
        (process_packet-Adds pools payload c n light)

  -- A request adds at most the weights of its own increment, message and record.
  pub adsb-Adds :
      (pools : TelemetryPools) (payload : Bytes) (n : ℕ)
      → IsLight weigh payload n
      → Adds weigh
          (weigh (pipeline (increment_steps pools.adsb (bytes_to_key payload) cache_expire_ms_adsb))
            + n)
          (adsb ch sv lib deku pools payload)
  unfolding Adds adsb
  adsb-Adds pools payload n light h = elim (Bool-cases (length payload == 14)) [
    | inl q ↦
        rw (unpacked ch sv lib deku pools payload h (ground arith))
          (counted-Adds pools payload n light h)
    | inr q ↦ rw q (omega arith, omega arith)
  ]
