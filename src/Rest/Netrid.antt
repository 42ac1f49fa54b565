-- ===== src/Rest/Netrid.antt =====
-- The Network Remote ID endpoint: server/src/rest/api/netrid.rs. A handler is a computation over the
-- history of effects. The unpacking of frames and messages is that of the packed_struct library.
pub mod Quiet
pub mod Sends
pub mod Basic
pub mod Replies
pub mod Duplicates
pub mod Weights
pub mod Tests
use svc_telemetry.Base.{
  ℕ, ◌≡◌, Bool, true, false, List, [], ◌∷◌, Option, none, some, Result, ok, err, ok_or, map_err,
  ◌>>=◌ as and_then, length, ltb, ◌==◌, if◌then◌else◌,
}
use svc_telemetry.Base.Text.{from_utf8, trim}
use svc_telemetry.Amqp.{
  exchange_name_telemetry, routing_key_netrid_id, routing_key_netrid_position,
  routing_key_netrid_velocity,
}
use svc_telemetry.Float.{Float, f32, of_ℕ, widen}
use svc_telemetry.World
use svc_telemetry.World.{Bytes, Io, ◌>>=◌, ◌>>◌, return, fail, lift, or_err, ignoring}
use svc_telemetry.Cache.{TelemetryPools, bytes_to_key}
use svc_telemetry.Cache.Pool.{GisPool, push, increment}
use svc_telemetry.Msg.Netrid.{
  Frame, BasicMessage, LocationMessage, decode_altitude, decode_speed, decode_vertical_speed,
  decode_direction, decode_latitude, decode_longitude, decode_timestamp,
}
use svc_telemetry.Msg.Netrid.Fields.{MessageType, IdType, UaType}
use svc_telemetry.Msg.Netrid.Clock.{Chrono}
use svc_telemetry.Rest.Status.{StatusCode, bad_request, internal_server_error}
use svc_telemetry.Rest.Gis.{AircraftType, AircraftId, Position, AircraftPosition, AircraftVelocity}
use svc_telemetry.Rest.Jwt.{Claim}
use svc_telemetry.Rest.Service.{Service, basic_publish}

abbrev pub cache_expire_ms_netrid : ℕ
cache_expire_ms_netrid = 10000

abbrev pub n_reporters_needed : ℕ
n_reporters_needed = 1

abbrev pub remote_id_packet_length : ℕ
remote_id_packet_length = 25

abbrev pub aircraft_type_from : UaType → AircraftType
aircraft_type_from UaType.undeclared = AircraftType.undeclared
aircraft_type_from UaType.aeroplane = AircraftType.aeroplane
aircraft_type_from UaType.rotorcraft = AircraftType.rotorcraft
aircraft_type_from UaType.gyroplane = AircraftType.gyroplane
aircraft_type_from UaType.hybrid_lift = AircraftType.hybridlift
aircraft_type_from UaType.ornithopter = AircraftType.ornithopter
aircraft_type_from UaType.glider = AircraftType.glider
aircraft_type_from UaType.kite = AircraftType.kite
aircraft_type_from UaType.free_balloon = AircraftType.freeballoon
aircraft_type_from UaType.captive_balloon = AircraftType.captiveballoon
aircraft_type_from UaType.airship = AircraftType.airship
aircraft_type_from UaType.unpowered = AircraftType.unpowered
aircraft_type_from UaType.rocket = AircraftType.rocket
aircraft_type_from UaType.tethered = AircraftType.tethered
aircraft_type_from UaType.ground_obstacle = AircraftType.groundobstacle
aircraft_type_from UaType.other = AircraftType.other

-- `Frame::unpack`, `BasicMessage::unpack` and `LocationMessage::unpack`.
pub record Unpack : Type 0 where
  pub frame : Bytes → Option Frame
  pub basic : Bytes → Option BasicMessage
  pub location : Bytes → Option LocationMessage

pub is_session_id : IdType → Bool
is_session_id IdType.utm_assigned = true
is_session_id IdType.specific_session = true
is_session_id _ = false

pub is_basic : MessageType → Bool
is_basic MessageType.basic = true
is_basic _ = false

-- Altitude, ground speed and vertical speed; any that is unknown spoils the message.
unfoldable pub readings : LocationMessage → Result StatusCode (Float × Float × Float)
readings m = and_then (map_err (λ e. bad_request) (decode_altitude m)) λ altitude.
    and_then (map_err (λ e. bad_request) (decode_speed m)) λ speed.
      and_then (map_err (λ e. bad_request) (decode_vertical_speed m))
        λ vertical. ok (altitude, speed, vertical)

module _ (c : Chrono) (sv : Service c) where
  open sv use {backends}

  -- The item for svc-gis: a session identifier is kept beside the identifier of the login, any other
  -- one replaces it.
  unfoldable pub id_item : Bytes → BasicMessage → Bytes → c.DateTime → AircraftId c.DateTime
  unfolding is_session_id
  id_item jwt_identifier m identifier now = record {
    identifier = some (if is_session_id m.id_type then jwt_identifier else identifier);
    session_id = if is_session_id m.id_type then some identifier else none;
    aircraft_type = aircraft_type_from m.ua_type;
    timestamp_network = now;
    timestamp_asset = none;
  }

  publish_json : Bytes → Option Bytes → Io StatusCode (Unit {0})
  unfolding basic_publish
  publish_json key none = return tt
  publish_json key (some msg) = ignoring (basic_publish backends exchange_name_telemetry key msg)

  -- `Utc::now()`, the reading `k` since the last effect.
  now : ℕ → Io StatusCode c.DateTime
  now k h = (ok (sv.now h k), h)

  -- Push to svc-gis, which must succeed, and publish, whose failure is ignored.
  send_id : AircraftId c.DateTime → Io StatusCode (Unit {0})
  unfolding publish_json push
  send_id item = do
    or_err (push backends (record {}) (sv.id_json item) sv.key_id) internal_server_error
    publish_json routing_key_netrid_id (sv.id_json item)

  -- The position must be pushed; the velocity and the two messages need not succeed.
  send_location :
      AircraftPosition c.DateTime → AircraftVelocity c.DateTime → Io StatusCode (Unit {0})
  unfolding publish_json push
  send_location position velocity = do
    or_err (push backends (record {}) (sv.position_json position) sv.key_position)
        internal_server_error
    ignoring (push backends (record {}) (sv.velocity_json velocity) sv.key_velocity)
    publish_json routing_key_netrid_position (sv.position_json position)
    publish_json routing_key_netrid_velocity (sv.velocity_json velocity)

  unfoldable pub process_basic_message : Bytes → BasicMessage → Io StatusCode (Unit {0})
  unfolding send_id now
  process_basic_message jwt_identifier m = do
    t ← now 0
    text ← lift (ok_or (from_utf8 m.uas_id) bad_request)
    send_id (id_item jwt_identifier m (trim text) t)

  -- The two items of a location message.
  pub position_item :
      Bytes → LocationMessage → Float → Option c.DateTime → c.DateTime → AircraftPosition c.DateTime
  position_item identifier m altitude asset now = record {
    identifier = identifier;
    position = record {
      latitude = decode_latitude m;
      longitude = decode_longitude m;
      altitude_meters = widen altitude;
    };
    timestamp_network = now;
    timestamp_asset = asset;
  }

  pub velocity_item :
      Bytes
      → LocationMessage
      → Float
      → Float
      → Option c.DateTime
      → c.DateTime
      → AircraftVelocity c.DateTime
  velocity_item identifier m speed vertical asset now = record {
    identifier = identifier;
    velocity_vertical_mps = vertical;
    velocity_horizontal_ground_mps = speed;
    velocity_horizontal_air_mps = none;
    track_angle_degrees = of_ℕ f32 (decode_direction m);
    timestamp_asset = asset;
    timestamp_network = now;
  }

  -- `Ok(ts) => Some(ts), Err(_) => None`
  pub asset_time : c.DateTime → LocationMessage → Option c.DateTime
  asset_time now m = elim (decode_timestamp c now m) [ ok t ↦ some t | err e ↦ none ]

  unfoldable pub process_location_message : Bytes → LocationMessage → Io StatusCode (Unit {0})
  unfolding send_location asset_time position_item velocity_item now
  process_location_message identifier m = do
    (altitude, speed, vertical) ← lift (readings m)
    t ← now 0
    t1 ← now 1
    t2 ← now 2
    let asset = asset_time t m
    send_location (position_item identifier m altitude asset t1)
        (velocity_item identifier m speed vertical asset t2)

  module _ (un : Unpack) where
    unfoldable pub process_message : MessageType → Bytes → Bytes → Io StatusCode (Unit {0})
    unfolding process_basic_message process_location_message
    process_message MessageType.basic sub message = do
      m ← lift (ok_or (un.basic message) bad_request)
      process_basic_message sub m
    process_message MessageType.location sub message = do
      m ← lift (ok_or (un.location message) bad_request)
      process_location_message sub m
    process_message _ sub message = fail bad_request

    -- What follows the count of the packet's reporters.
    on_count : ℕ → Io StatusCode (Unit {0}) → Io StatusCode ℕ
    on_count count process =
        if ltb count n_reporters_needed
        then fail internal_server_error
        else if ltb n_reporters_needed count
        then return count
        else do process; return count

    -- A basic message is not counted.
    count_reporters : TelemetryPools → MessageType → Bytes → Io StatusCode ℕ
    unfolding is_basic increment
    count_reporters pools t payload =
        if is_basic t
        then return 1
        else or_err (increment backends pools.netrid (bytes_to_key payload) cache_expire_ms_netrid)
            internal_server_error

    unfoldable pub network_remote_id : TelemetryPools → Claim → Bytes → Io StatusCode ℕ
    unfolding process_message on_count count_reporters
    network_remote_id pools claim payload = do
      payload ←
          lift (if length payload == remote_id_packet_length then ok payload else err bad_request)
      f ← lift (ok_or (un.frame payload) bad_request)
      count ← count_reporters pools f.header.message_type payload
      on_count count (process_message f.header.message_type claim.sub f.message)
