-- ===== src/Rest/Adsb.antt =====
-- The ADS-B endpoint: server/src/rest/api/adsb.rs.
pub mod Push
pub mod Stored
pub mod Weights
pub mod Extends
pub mod Duplicates
pub mod Replies
pub mod Positions
pub mod Tests
use svc_telemetry.Base.{
  ℕ, ◌≡◌, Bool, true, false, ◌&&◌, List, [], ◌∷◌, ◌++◌, Option, none, some, Result, ok, err, ok_or,
  map_err, length, ltb, ◌==◌, if◌then◌else◌,
}
use svc_telemetry.Base.Text.{codes, hex_u32, decimal_u32, parse_u32}
use svc_telemetry.Amqp.{exchange_name_telemetry, routing_key_adsb}
use svc_telemetry.Float.{Float, widen}
use svc_telemetry.World
use svc_telemetry.World.{
  Bytes, Backends, Io, insert, ◌>>=◌, ◌>>◌, return, fail, lift, or_err, ignoring,
}
use svc_telemetry.Cache.{TelemetryPools, bytes_to_key}
use svc_telemetry.Cache.Pool.{
  CacheError, TelemetryPool, push, increment, multiple_set, multiple_get,
}
use svc_telemetry.Msg.Adsb.{
  Libm, Sign, adsb_size_bytes, decode_altitude, decode_cpr, decode_speed_direction,
  decode_vertical_speed, get_adsb_icao_address, get_adsb_message_type,
}
use svc_telemetry.Msg.Netrid.Clock.{Chrono}
use svc_telemetry.Rest.Status.{StatusCode, bad_request, internal_server_error, not_implemented}
use svc_telemetry.Rest.Gis.{AircraftType, AircraftId, Position, AircraftPosition, AircraftVelocity}
use svc_telemetry.Rest.Service.{Service, basic_publish}
use Push.{
  CprFormat, Me, identification, airborne_position, velocity, unrecognized, Packet, not_adsb,
  adsb_format, AdsbDeku, GroundSpeed, set_cpr, gis_identifier_push, gis_position_push,
  gis_velocity_push,
}

abbrev pub cache_expire_ms_adsb : ℕ
cache_expire_ms_adsb = 10000

abbrev pub n_reporters_needed : ℕ
n_reporters_needed = 1

module _ (ch : Chrono) (sv : Service ch) (lib : Libm) (deku : AdsbDeku) where
  open sv use {backends}

  -- The message of a packet.
  pub process_me : TelemetryPools → ℕ → Me → Io StatusCode (Unit {0})
  unfolding gis_identifier_push gis_position_push gis_velocity_push set_cpr
  process_me pools icao (identification tc ca cn) =
      or_err (gis_identifier_push ch sv lib deku cn tc ca) internal_server_error
  process_me pools icao (airborne_position odd_flag lat_cpr lon_cpr alt) = do
    alt ← lift (ok_or alt bad_request)
    or_err (set_cpr ch sv lib deku pools icao odd_flag lat_cpr lon_cpr) internal_server_error
    or_err
        (gis_position_push ch sv lib deku pools.adsb (record {
          icao = icao;
          lat_cpr = lat_cpr;
          lon_cpr = lon_cpr;
          alt = alt;
          odd_flag = odd_flag;
        }))
        internal_server_error
  process_me pools icao (velocity st sub_type vrate_sign vrate_value) = do
    g ← lift (ok_or sub_type not_implemented)
    or_err
        (gis_velocity_push ch sv lib deku (record {
          icao = icao;
          st = st;
          ew_sign = g.ew_sign;
          ew_vel = g.ew_vel;
          ns_sign = g.ns_sign;
          ns_vel = g.ns_vel;
          vrate_sign = vrate_sign;
          vrate_value = vrate_value;
        }))
        internal_server_error
  process_me pools icao unrecognized = fail bad_request

  -- `client.insert(request).await`
  insert_record : ℕ → ℕ → Bytes → Io (Unit {0}) (Unit {0})
  insert_record icao message_type payload h =
      ((if backends.inserted h then ok tt else err tt), insert icao message_type payload ∷ h)

  -- What follows the message: RabbitMQ, whose failure is ignored, then svc-storage.
  store_packet : ℕ → Bytes → ℕ → Io StatusCode ℕ
  unfolding insert_record basic_publish
  store_packet icao payload count = do
    ignoring (basic_publish backends exchange_name_telemetry routing_key_adsb payload)
    or_err (insert_record icao (get_adsb_message_type payload) payload) internal_server_error
    return count

  -- A parsed packet: its message, then the rest.
  process_frame : TelemetryPools → Bytes → ℕ → Packet → Io StatusCode ℕ
  unfolding process_me store_packet
  process_frame pools payload count not_adsb = fail bad_request
  process_frame pools payload count (adsb_format address me) = do
    let icao = get_adsb_icao_address address
    process_me pools icao me
    store_packet icao payload count

  -- A packet that was not answered before.
  pub process_packet : TelemetryPools → Bytes → ℕ → Io StatusCode ℕ
  unfolding process_frame
  process_packet pools payload count = do
    frame ← lift (ok_or (deku.from_bytes payload) bad_request)
    process_frame pools payload count frame

  pub on_count : ℕ → Io StatusCode ℕ → Io StatusCode ℕ
  on_count count process =
      if ltb count n_reporters_needed
      then fail internal_server_error
      else if ltb n_reporters_needed count
      then return count
      else process

  unfoldable pub adsb : TelemetryPools → Bytes → Io StatusCode ℕ
  unfolding on_count process_packet increment
  adsb pools payload = do
    payload ← lift (if length payload == adsb_size_bytes then ok payload else err bad_request)
    count ←
        or_err (increment backends pools.adsb (bytes_to_key payload) cache_expire_ms_adsb)
          internal_server_error
    on_count count (process_packet pools payload count)
