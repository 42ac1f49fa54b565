-- ===== src/Rest/Adsb/Push.antt =====
-- What the ADS-B endpoint pushes for svc-gis and keeps in the cache: server/src/rest/api/adsb.rs. The
-- parsing of a packet is that of the adsb_deku library; its types are listed as far as the code takes
-- them apart.
pub mod Quiet
pub mod Extends
use svc_telemetry.Base.{
  ℕ, ◌&&◌, List, [], ◌∷◌, ◌++◌, Option, none, some, Result, ok, err, map_err, ltb, ◌==◌,
  if◌then◌else◌,
}
use svc_telemetry.Base.Text.{codes, hex_u32, decimal_u32, parse_u32}
use svc_telemetry.Float.{Float, widen}
use svc_telemetry.World.{Bytes, Io, ◌>>=◌, return, lift, or_err}
use svc_telemetry.Cache.{TelemetryPools}
use svc_telemetry.Cache.Pool.{CacheError, TelemetryPool, push, multiple_set, multiple_get}
use svc_telemetry.Msg.Adsb.{
  Libm, Sign, decode_altitude, decode_cpr, decode_speed_direction, decode_vertical_speed,
}
use svc_telemetry.Msg.Netrid.Clock.{Chrono}
use svc_telemetry.Rest.Gis.{AircraftType, AircraftId, AircraftPosition, AircraftVelocity}
use svc_telemetry.Rest.Service.{Service}

abbrev pub cache_expire_ms_aircraft_cpr : ℕ
cache_expire_ms_aircraft_cpr = 1000

pub data CprFormat : Type 0 where
  even odd : CprFormat

pub data TypeCoding : Type 0 where
  a b c d : TypeCoding

pub record GisPositionData : Type 0 where
  pub icao : ℕ
  pub lat_cpr : ℕ
  pub lon_cpr : ℕ
  pub alt : ℕ
  pub odd_flag : CprFormat

pub record GisVelocityData : Type 0 where
  pub icao : ℕ
  pub st : ℕ
  pub ew_sign : Sign
  pub ew_vel : ℕ
  pub ns_sign : Sign
  pub ns_vel : ℕ
  pub vrate_sign : Sign
  pub vrate_value : ℕ

pub record GroundSpeed : Type 0 where
  pub ew_sign : Sign
  pub ew_vel : ℕ
  pub ns_sign : Sign
  pub ns_vel : ℕ

-- `adsb_deku::adsb::ME`: the three messages that are handled, and any other.
pub data Me : Type 0 where
  identification : TypeCoding → ℕ → Bytes → Me
  airborne_position : CprFormat → ℕ → ℕ → Option ℕ → Me
  -- Subtype, ground speed if that is what was decoded, vertical rate.
  velocity : ℕ → Option GroundSpeed → Sign → ℕ → Me
  unrecognized : Me

-- A parsed packet: not of the ADSB format, or its address and message.
pub data Packet : Type 0 where
  not_adsb : Packet
  adsb_format : Bytes → Me → Packet

pub record AdsbDeku : Type 0 where
  pub from_bytes : Bytes → Option Packet
  -- `{}` of a CPRFormat, and `CPRFormat::Odd as u8` in decimal.
  pub display : CprFormat → Bytes
  pub odd_digit : Bytes

class_a : ℕ → AircraftType
class_a category = if category == 7 then AircraftType.rotorcraft else AircraftType.other

class_b : ℕ → AircraftType
class_b category =
    if category == 1
    then AircraftType.glider
    else if category == 2
    then AircraftType.airship
    else if category == 3
    then AircraftType.unpowered
    else if category == 4
    then AircraftType.glider
    else if category == 7
    then AircraftType.rocket
    else AircraftType.other

class_c : ℕ → AircraftType
class_c category =
    if ltb 3 category && ltb category 8 then AircraftType.groundobstacle else AircraftType.other

unfoldable pub get_aircraft_type : TypeCoding → ℕ → AircraftType
unfolding class_a class_b class_c
get_aircraft_type a category = class_a category
get_aircraft_type b category = class_b category
get_aircraft_type c category = class_c category
get_aircraft_type d category = AircraftType.other

-- The keys of an aircraft's last position: `{:x}:lat_cpr:{}` and `{:x}:lon_cpr:{}`.
abbrev pub lat_key : ℕ → Bytes → Bytes
lat_key icao flag = hex_u32 icao ++ (codes ":lat_cpr:" ++ flag)

abbrev pub lon_key : ℕ → Bytes → Bytes
lon_key icao flag = hex_u32 icao ++ (codes ":lon_cpr:" ++ flag)

module _ (ch : Chrono) (sv : Service ch) (lib : Libm) (deku : AdsbDeku) where
  open sv use {backends}

  -- `Utc::now()`, the reading `k` since the last effect.
  now : {E : Type 0} → ℕ → Io E ch.DateTime
  now k h = (ok (sv.now h k), h)

  unfoldable pub gis_identifier_push : Bytes → TypeCoding → ℕ → Io (Unit {0}) (Unit {0})
  unfolding push now get_aircraft_type
  gis_identifier_push identifier type_coding category = do
    t ← now 0
    let item : AircraftId ch.DateTime = record {
      identifier = some identifier;
      session_id = none;
      aircraft_type = get_aircraft_type type_coding category;
      timestamp_network = t;
      timestamp_asset = none;
    }
    push backends (record {}) (sv.id_json item) sv.key_id

  pair : List ℕ → Result (Unit {0}) (ℕ × ℕ)
  pair (x ∷ y ∷ []) = ok (x, y)
  pair _ = err tt

  position_item : GisPositionData → Float → Float → ch.DateTime → AircraftPosition ch.DateTime
  position_item data' latitude longitude t = record {
    identifier = hex_u32 data'.icao;
    position = record {
      latitude = latitude;
      longitude = longitude;
      altitude_meters = widen (decode_altitude data'.alt);
    };
    timestamp_network = t;
    timestamp_asset = none;
  }

  push_even_position : TelemetryPool → GisPositionData → Io (Unit {0}) (Unit {0})
  unfolding multiple_get push now pair position_item
  push_even_position pool p = do
    results ←
        or_err
          (multiple_get backends pool parse_u32
            (lat_key p.icao deku.odd_digit ∷ lon_key p.icao deku.odd_digit ∷ []))
          tt
    (e_lat, e_lon) ← lift (pair results)
    (latitude, longitude) ←
        lift (map_err (λ e. tt) (decode_cpr lib e_lat e_lon p.lat_cpr p.lon_cpr))
    t ← now 0
    push backends (record {}) (sv.position_json (position_item p latitude longitude t))
        sv.key_position

  unfoldable pub gis_position_push : TelemetryPool → GisPositionData → Io (Unit {0}) (Unit {0})
  unfolding push_even_position
  gis_position_push pool p = elim p.odd_flag [ odd ↦ return tt | even ↦ push_even_position pool p ]

  velocity_item :
      GisVelocityData → Float → Float → Float → ch.DateTime → AircraftVelocity ch.DateTime
  velocity_item v speed track vertical t = record {
    identifier = hex_u32 v.icao;
    velocity_vertical_mps = vertical;
    velocity_horizontal_ground_mps = speed;
    velocity_horizontal_air_mps = none;
    track_angle_degrees = track;
    timestamp_asset = none;
    timestamp_network = t;
  }

  unfoldable pub gis_velocity_push : GisVelocityData → Io (Unit {0}) (Unit {0})
  unfolding push now velocity_item
  gis_velocity_push v = do
    (speed, track) ←
        lift (
          map_err (λ e. tt) (decode_speed_direction lib v.st v.ew_sign v.ew_vel v.ns_sign v.ns_vel))
    vertical ← lift (map_err (λ e. tt) (decode_vertical_speed v.vrate_sign v.vrate_value))
    t ← now 0
    push backends (record {}) (sv.velocity_json (velocity_item v speed track vertical t))
        sv.key_velocity

  -- The CPR position is kept for the packet of the other parity.
  unfoldable pub set_cpr : TelemetryPools → ℕ → CprFormat → ℕ → ℕ → Io CacheError (Unit {0})
  unfolding multiple_set
  set_cpr pools icao odd_flag lat_cpr lon_cpr =
      multiple_set backends pools.adsb
        ((lat_key icao (deku.display odd_flag), decimal_u32 lat_cpr)
          ∷ (lon_key icao (deku.display odd_flag), decimal_u32 lon_cpr)
          ∷ [])
        cache_expire_ms_aircraft_cpr
