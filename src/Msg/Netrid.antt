-- ===== src/Msg/Netrid.antt =====
-- The Network Remote ID messages of server/src/msg/netrid.rs: frame header, basic and location
-- message, and the codecs of the location message's fields. Fixed arrays of bytes are lists; a u8,
-- u16 is a number below its bound, an i8 or i32 a signed integer; f32 and f64 are those of Float.
-- The packing of a struct into bits is derived code of the packed_struct library.
pub mod Fields
pub mod Clock
pub mod Altitude
pub mod Degrees
pub mod Direction
pub mod VerticalSpeed
pub mod Speed
pub mod Timestamp
pub mod SpeedCodec
pub mod Tests
use svc_telemetry.Base.{
  ℕ, ◌+◌, ◌-◌, ◌*◌, ◌/◌, ◌%◌, ◌^◌, ◌≡◌, Bool, true, false, ◌&&◌, List, ltb, leb, ◌==◌,
  if◌then◌else◌, replicate, Result, ok, err, String, ok_or, ◌>>=◌,
}
use svc_telemetry.Base.Int.{ℤ, pos, negsuc}
use svc_telemetry.Float.{
  Float, f32, f64, literal, negate, add, sub, mul, div, lt, le, feq, of_ℕ, of_ℤ, to_unsigned,
  to_signed,
}
use Fields.{
  MessageType, UaType, IdType, OperationalStatus, HeightType, EastWestDirection, SpeedMultiplier,
  VerticalAccuracyMeters, HorizontalAccuracyMeters, SpeedAccuracyMetersPerSecond,
}
use Clock.{Chrono, tenths_u16}

abbrev pub remote_id_protocol_version : ℕ
remote_id_protocol_version = 2

pub record Header : Type 0 where
  pub message_type : MessageType
  pub protocol_version : ℕ

pub default_header : Header
default_header = record {
  message_type = MessageType.basic;
  protocol_version = remote_id_protocol_version;
}

-- `message` has 24 bytes.
pub record Frame : Type 0 where
  pub header : Header
  pub message : List ℕ

-- `uas_id` has 20 bytes and `reserved` 3.
pub record BasicMessage : Type 0 where
  pub id_type : IdType
  pub ua_type : UaType
  pub uas_id : List ℕ
  pub reserved : List ℕ

pub default_basic_message : BasicMessage
default_basic_message = record {
  id_type = IdType.none;
  ua_type = UaType.undeclared;
  uas_id = replicate 20 0;
  reserved = replicate 3 0;
}

pub record LocationMessage : Type 0 where
  pub operational_status : OperationalStatus
  pub reserved_0 : ℕ
  pub height_type : HeightType
  pub ew_direction : EastWestDirection
  pub speed_multiplier : SpeedMultiplier
  pub track_direction : ℕ
  pub speed : ℕ
  pub vertical_speed : ℤ
  pub latitude : ℤ
  pub longitude : ℤ
  pub pressure_altitude : ℕ
  pub geodetic_altitude : ℕ
  pub height : ℕ
  pub vertical_accuracy : VerticalAccuracyMeters
  pub horizontal_accuracy : HorizontalAccuracyMeters
  pub barometric_altitude_accuracy : VerticalAccuracyMeters
  pub speed_accuracy : SpeedAccuracyMetersPerSecond
  pub timestamp : ℕ
  pub reserved_1 : ℕ
  pub timestamp_accuracy : ℕ
  pub reserved_2 : ℕ

pub data Message : Type 0 where
  basic : BasicMessage → Message
  location : LocationMessage → Message

pub data LocationDecodeError : Type 0 where
  speed_gte254_25 unknown_speed unknown_altitude unknown_timestamp : LocationDecodeError

pub data LocationEncodeError : Type 0 where
  invalid_track_angle negative_ground_speed unknown_timestamp : LocationEncodeError

abbrev pub location_decode_error_fmt : LocationDecodeError → String
location_decode_error_fmt LocationDecodeError.speed_gte254_25 =
    "Speed is greater than or equal to 254.25 m/s"
location_decode_error_fmt LocationDecodeError.unknown_speed = "Unknown speed"
location_decode_error_fmt LocationDecodeError.unknown_altitude = "Unknown altitude"
location_decode_error_fmt LocationDecodeError.unknown_timestamp = "Unknown timestamp"

direction_of : EastWestDirection → ℕ → ℕ
direction_of EastWestDirection.east track = track
direction_of EastWestDirection.west track = track + 180

unfoldable pub decode_direction : LocationMessage → ℕ
unfolding direction_of
decode_direction m = direction_of m.ew_direction m.track_direction

-- The casts to u8 are below 180.
unfoldable pub encode_direction : ℕ → Result LocationEncodeError (EastWestDirection × ℕ)
encode_direction direction =
    if leb 360 direction
    then err LocationEncodeError.invalid_track_angle
    else if ltb direction 180
    then ok (EastWestDirection.east, direction % 256)
    else ok (EastWestDirection.west, (direction - 180) % 256)

unfoldable pub decode_altitude : LocationMessage → Result LocationDecodeError Float
decode_altitude m =
    let altitude =
      sub f32 (mul f32 (of_ℕ f32 m.pressure_altitude) (literal f32 1 2)) (literal f32 1000 1) in
    if feq altitude (negate (literal f32 1000 1))
    then err LocationDecodeError.unknown_altitude
    else ok altitude

unfoldable pub encode_altitude : Float → ℕ
encode_altitude altitude =
    to_unsigned f32 16 (mul f32 (add f32 altitude (literal f32 1000 1)) (literal f32 2 1))

-- `HIGH_SPEED_ADDITION` of decode_speed and `THRESHOLD` of encode_speed.
pub high_speed_addition : Float
high_speed_addition = literal f32 6375 100

scaled_speed : SpeedMultiplier → ℕ → Float
unfolding high_speed_addition
scaled_speed SpeedMultiplier.x0_25 n = mul f32 (of_ℕ f32 n) (literal f32 25 100)
scaled_speed SpeedMultiplier.x0_75 n =
    add f32 (mul f32 (of_ℕ f32 n) (literal f32 75 100)) high_speed_addition

unfoldable pub decode_speed : LocationMessage → Result LocationDecodeError Float
unfolding scaled_speed
decode_speed m =
    let speed = scaled_speed m.speed_multiplier m.speed in
    if feq speed (literal f32 255 1)
    then err LocationDecodeError.unknown_speed
    else if feq speed (literal f32 25425 100)
    then err LocationDecodeError.speed_gte254_25
    else ok speed

unfoldable pub encode_speed : Float → Result LocationEncodeError (SpeedMultiplier × ℕ)
unfolding high_speed_addition
encode_speed speed =
    if lt speed (literal f32 0 1)
    then err LocationEncodeError.negative_ground_speed
    else if le speed high_speed_addition
    then ok (SpeedMultiplier.x0_25, to_unsigned f32 8 (mul f32 speed (literal f32 4 1)))
    else if lt high_speed_addition speed && lt speed (literal f32 25425 100)
    then ok (
      SpeedMultiplier.x0_75,
      to_unsigned f32 8 (div f32 (sub f32 speed high_speed_addition) (literal f32 75 100)),
    )
    else ok (SpeedMultiplier.x0_75, 254)

unfoldable pub decode_vertical_speed : LocationMessage → Result LocationDecodeError Float
decode_vertical_speed m =
    let speed = mul f32 (of_ℤ f32 m.vertical_speed) (literal f32 1 2) in
    let most = literal f32 62 1 in
    if feq speed (literal f32 63 1)
    then err LocationDecodeError.unknown_speed
    else ok (if le most speed then most else if le speed (negate most) then negate most else speed)

unfoldable pub encode_vertical_speed : Float → ℤ
encode_vertical_speed speed = to_signed f32 8 (mul f32 speed (literal f32 2 1))

unfoldable pub decode_latitude : LocationMessage → Float
decode_latitude m = mul f64 (of_ℤ f64 m.latitude) (literal f64 1 10000000)

unfoldable pub encode_latitude : Float → ℤ
encode_latitude latitude = to_signed f64 32 (mul f64 latitude (literal f64 10000000 1))

unfoldable pub decode_longitude : LocationMessage → Float
decode_longitude m = mul f64 (of_ℤ f64 m.longitude) (literal f64 1 10000000)

unfoldable pub encode_longitude : Float → ℤ
encode_longitude longitude = to_signed f64 32 (mul f64 longitude (literal f64 10000000 1))

-- The clock's operations are the time library's; `now` is the value of `Utc::now()`.
module _ (c : Chrono) where
  open c use {DateTime, Duration}

  current_hour : {E : Type 0} → E → DateTime → Result E DateTime
  current_hour e t = do
    t ← ok_or (c.with_minute t 0) e
    t ← ok_or (c.with_second t 0) e
    ok_or (c.with_nanosecond t 0) e

  unfoldable pub decode_timestamp : DateTime → LocationMessage → Result LocationDecodeError DateTime
  unfolding current_hour
  decode_timestamp now m = do
    hour ← current_hour LocationDecodeError.unknown_timestamp now
    encoded ← ok_or (c.try_milliseconds (m.timestamp * 100)) LocationDecodeError.unknown_timestamp
    delta ← ok_or (c.try_hours 1) LocationDecodeError.unknown_timestamp
    let ms_since_hour = c.num_milliseconds (c.since now hour)
    ok (
        if ltb (tenths_u16 ms_since_hour) m.timestamp
        then c.plus (c.minus hour delta) encoded
        else c.plus hour encoded)

  unfoldable pub encode_timestamp : DateTime → Result LocationEncodeError ℕ
  unfolding current_hour
  encode_timestamp t = do
    hour ← current_hour LocationEncodeError.unknown_timestamp t
    ok (tenths_u16 (c.num_milliseconds (c.since t hour)))
