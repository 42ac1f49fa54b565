-- ===== src/Rest/Adsb/Positions.antt =====
-- Airborne positions at the ADS-B endpoint: server/src/rest/api/adsb.rs with the pool of
-- server/src/cache/pool.rs.
use svc_telemetry.Base.{ℕ, ◌≡◌, ◌∙◌, ap, ◌≢◌, arith, [], ◌∷◌, some, ok, err, length}
use svc_telemetry.World.{Bytes, History, IsPipelined, Io, ◌>>=◌, or_err}
use svc_telemetry.World.Effects.{bind_ok, or_err_ok}
use svc_telemetry.Rest.Adsb.Stored.{unpacked}
use svc_telemetry.Cache.{TelemetryPools, bytes_to_key}
use svc_telemetry.Cache.Pool.{CacheError, increment}
use svc_telemetry.Cache.Pool.Pipelines.{multiple_set-ne-ok}
use svc_telemetry.Msg.Adsb.{Libm, get_adsb_icao_address}
use svc_telemetry.Base.Text.{decimal_u32}
use svc_telemetry.Msg.Netrid.Clock.{Chrono}
use svc_telemetry.Rest.Status.{StatusCode, internal_server_error}
use svc_telemetry.Rest.Service.{Service}
use svc_telemetry.Rest.Adsb.Push.{
  set_cpr, gis_position_push, lat_key, lon_key, cache_expire_ms_aircraft_cpr, AdsbDeku, CprFormat,
  airborne_position, adsb_format,
}
use svc_telemetry.Rest.Adsb.{
  store_packet, process_me, process_packet, process_frame, on_count, adsb, cache_expire_ms_adsb,
}

-- The rest of a handler after a call that did not return `ok tt`.
failed :
    {B : Type 0} (m : Io CacheError (Unit {0})) (f : Unit {0} → Io StatusCode B) (h : History)
    → (m h).0 ≢ ok tt
    → ((or_err m internal_server_error >>= f) h).0 ≡ err internal_server_error
failed m f h ne = ground arith

stops :
    {A B : Type 0} (m : Io StatusCode A) (f : A → Io StatusCode B) (e : StatusCode) (h : History)
    → (m h).0 ≡ err e
    → ((m >>= f) h).0 ≡ err e
stops m f e h q = ground arith

module _ (ch : Chrono) (sv : Service ch) (lib : Libm) (deku : AdsbDeku)
    (k : IsPipelined sv.backends) where
  position_fails :
      (pools : TelemetryPools) (icao lat lon alt : ℕ) (flag : CprFormat) (h : History)
      → (process_me ch sv lib deku pools icao (airborne_position flag lat lon (some alt)) h).0
        ≡ err internal_server_error
  unfolding process_me
  position_fails pools icao lat lon alt flag h =
      failed (set_cpr ch sv lib deku pools icao flag lat lon)
        (λ u.
          or_err
            (gis_position_push ch sv lib deku pools.adsb
              (record { icao = icao; lat_cpr = lat; lon_cpr = lon; alt = alt; odd_flag = flag }))
            internal_server_error)
        h
        (multiple_set-ne-ok sv.backends k pools.adsb
          ((lat_key icao (deku.display flag), decimal_u32 lat)
            ∷ (lon_key icao (deku.display flag), decimal_u32 lon)
            ∷ [])
          cache_expire_ms_aircraft_cpr h)

  packet_fails :
      (pools : TelemetryPools) (payload address : Bytes) (lat lon alt : ℕ) (flag : CprFormat)
      (h : History)
      → deku.from_bytes payload
        ≡ some (adsb_format address (airborne_position flag lat lon (some alt)))
      → (process_packet ch sv lib deku pools payload 1 h).0 ≡ err internal_server_error
  unfolding process_packet process_frame
  packet_fails pools payload address lat lon alt flag h from = rw from (
      stops
        (process_me ch sv lib deku pools (get_adsb_icao_address address)
          (airborne_position flag lat lon (some alt)))
        (λ u. store_packet ch sv lib deku (get_adsb_icao_address address) payload 1)
        internal_server_error h
        (position_fails pools (get_adsb_icao_address address) lat lon alt flag h))

  -- When pipelines are answered as documented, a packet of 14 bytes with the count 1 that parses to an
  -- airborne position with an altitude is answered with 500, since `multiple_set` cannot succeed.
  pub adsb-airborne_position :
      (pools : TelemetryPools) (payload address : Bytes) (lat lon alt : ℕ) (flag : CprFormat)
      (h h1 : History)
      → length payload ≡ 14
      → increment sv.backends pools.adsb (bytes_to_key payload) cache_expire_ms_adsb h ≡ (ok 1, h1)
      → deku.from_bytes payload
        ≡ some (adsb_format address (airborne_position flag lat lon (some alt)))
      → (adsb ch sv lib deku pools payload h).0 ≡ err internal_server_error
  unfolding on_count
  adsb-airborne_position pools payload address lat lon alt flag h h1 len inc from =
      ap (λ x. x.0)
        (unpacked ch sv lib deku pools payload h len
          ∙ bind_ok
              (or_err (increment sv.backends pools.adsb (bytes_to_key payload) cache_expire_ms_adsb)
                internal_server_error)
              (λ n. on_count ch sv lib deku n (process_packet ch sv lib deku pools payload n)) 1 h
              h1
              (or_err_ok
                (increment sv.backends pools.adsb (bytes_to_key payload) cache_expire_ms_adsb)
                internal_server_error 1 h h1 inc))
      ∙ packet_fails pools payload address lat lon alt flag h1 from
