-- ===== src/Msg/Netrid/Tests.antt =====
-- Concrete messages and a concrete clock, and the theorems on server/src/msg/netrid.rs applied to them.
use svc_telemetry.Base.{
  ℕ, ◌+◌, ◌-◌, ◌*◌, ◌/◌, ◌%◌, ◌<◌, ◌≡◌, refl, ◌⊎◌, arith, ltb, if◌then◌else◌, some, none, ok,
}
use svc_telemetry.Base.Int.{pos, negsuc}
use svc_telemetry.Float.{literal, to_signed, mul, of_ℤ, round, half_even, excess}
use svc_telemetry.Msg.Netrid.{
  LocationMessage, decode_direction, encode_direction, decode_altitude, encode_altitude,
  decode_speed, encode_speed, decode_vertical_speed, encode_vertical_speed, decode_timestamp,
  encode_timestamp, decode_latitude, encode_latitude,
}
use svc_telemetry.Msg.Netrid.Fields.{
  OperationalStatus, HeightType, EastWestDirection, SpeedMultiplier, VerticalAccuracyMeters,
  HorizontalAccuracyMeters, SpeedAccuracyMetersPerSecond,
}
use svc_telemetry.Msg.Netrid.Clock.{Chrono, IsClock, tenth, second, minute, hour}
use svc_telemetry.Msg.Netrid.Degrees.{encode_latitude-decode_latitude}
use svc_telemetry.Msg.Netrid.Altitude.{
  half_metres, decode_altitude-half_metres, encode_altitude-decode_altitude,
}
use svc_telemetry.Msg.Netrid.Direction.{with_direction, decode_direction-encode_direction}
use svc_telemetry.Msg.Netrid.VerticalSpeed.{
  halves, decode_vertical_speed-reading, encode_vertical_speed-decode_vertical_speed,
}
use svc_telemetry.Msg.Netrid.Speed.{quarters, encode_high, decode_speed-quarters}
use svc_telemetry.Msg.Netrid.SpeedCodec.{with_speed, decode_speed-encode_speed}
use svc_telemetry.Msg.Netrid.Timestamp.{with_timestamp, decode_timestamp-encode_timestamp}

-- 250 degrees, 105 quarters of a metre per second, 3.5 m/s down, 100 m.
abbrev pub sample : LocationMessage
sample = record {
  operational_status = OperationalStatus.airborne;
  reserved_0 = 0;
  height_type = HeightType.above_takeoff;
  ew_direction = EastWestDirection.west;
  speed_multiplier = SpeedMultiplier.x0_25;
  track_direction = 70;
  speed = 105;
  vertical_speed = negsuc 6;
  latitude = pos 523456789;
  longitude = negsuc 48765432;
  pressure_altitude = 2200;
  geodetic_altitude = 2210;
  height = 2100;
  vertical_accuracy = VerticalAccuracyMeters.gte150_unknown;
  horizontal_accuracy = HorizontalAccuracyMeters.gte18520;
  barometric_altitude_accuracy = VerticalAccuracyMeters.gte150_unknown;
  speed_accuracy = SpeedAccuracyMetersPerSecond.gte10_unknown;
  timestamp = 1234;
  reserved_1 = 0;
  timestamp_accuracy = 0;
  reserved_2 = 0;
}

decode_direction-encode_direction_example :
    (p : EastWestDirection × ℕ) × (encode_direction 250 ≡ ok p)
    × (p.1 < 180)
    × (decode_direction (with_direction sample p) ≡ 250)
decode_direction-encode_direction_example =
    decode_direction-encode_direction sample 250 (omega arith)

decode_altitude-half_metres_example : decode_altitude sample ≡ ok (half_metres 2200)
decode_altitude-half_metres_example = decode_altitude-half_metres sample (omega arith)

encode_altitude-decode_altitude_example : encode_altitude (half_metres 2200) ≡ 2200
encode_altitude-decode_altitude_example =
    encode_altitude-decode_altitude sample (half_metres 2200) (omega arith)
      decode_altitude-half_metres_example

decode_speed-quarters_example : decode_speed sample ≡ ok (quarters 105)
decode_speed-quarters_example = decode_speed-quarters sample (omega arith)

decode_speed-encode_speed_example :
    (p : SpeedMultiplier × ℕ) × (encode_speed (quarters 105) ≡ ok p)
    × (decode_speed (with_speed sample p) ≡ ok (quarters 105))
decode_speed-encode_speed_example =
    decode_speed-encode_speed sample (quarters 105) (omega arith) decode_speed-quarters_example

quarters_encoded : encode_speed (quarters 1011) ≡ ok (SpeedMultiplier.x0_75, 252)
quarters_encoded = encode_high 252 (omega arith) (omega arith)

-- 10.3 m/s is 41 quarters and something over.
decode_vertical_speed-reading_example : decode_vertical_speed sample ≡ ok (halves (negsuc 6))
decode_vertical_speed-reading_example = decode_vertical_speed-reading sample (omega arith)

encode_vertical_speed-decode_vertical_speed_example :
    encode_vertical_speed (halves (negsuc 6)) ≡ negsuc 6
encode_vertical_speed-decode_vertical_speed_example =
    encode_vertical_speed-decode_vertical_speed sample (halves (negsuc 6)) (omega arith)
      decode_vertical_speed-reading_example

-- Times as nanoseconds since 1970.
abbrev pub clock : Chrono
clock = record {
  DateTime = ℕ;
  Duration = ℕ;
  with_minute = λ t m. if ltb m 60 then some (t - t / minute % 60 * minute + m * minute) else none;
  with_second = λ t s. if ltb s 60 then some (t - t / second % 60 * second + s * second) else none;
  with_nanosecond = λ t n. if ltb n second then some (t - t % second + n) else none;
  since = λ a b. a - b;
  num_milliseconds = λ d. pos (d / 1_000_000);
  try_milliseconds = λ n. some (n * 1_000_000);
  try_hours = λ n. some (n * hour);
  plus = λ t d. t + d;
  minus = λ t d. t - d;
}

abbrev clock-IsClock : IsClock clock
clock-IsClock = record {
  nanos = λ t. t;
  with_minute-zero = λ t. (t - t / minute % 60 * minute + 0, refl, omega arith);
  with_second-zero = λ t. (t - t / second % 60 * second + 0, refl, omega arith);
  with_nanosecond-zero = λ t. (t - t % second + 0, refl, omega arith);
  num_milliseconds-since = λ a b h. refl;
  try_milliseconds_lem = λ n h. (n * 1_000_000, refl, λ t. refl);
  try_hours-one = (1 * hour, refl, λ t h. omega arith);
}

-- 2023-11-14 22:13:20.25 UTC, seen at 22:20:00.
decode_timestamp-encode_timestamp_example :
    (n : ℕ) × (u : ℕ) × (encode_timestamp clock 1_700_000_000_250_000_000 ≡ ok n)
    × (decode_timestamp clock 1_700_000_400_000_000_000 (with_timestamp sample n) ≡ ok u)
    × (u + 1_700_000_000_250_000_000 % tenth ≡ 1_700_000_000_250_000_000)
decode_timestamp-encode_timestamp_example =
    decode_timestamp-encode_timestamp clock clock-IsClock sample 1_700_000_400_000_000_000
      1_700_000_000_250_000_000 (omega arith) (omega arith) (omega arith)

abbrev thirteen : LocationMessage
thirteen = record sample { latitude = pos 13 }

-- A unit is lost.
latitude_lost : encode_latitude (decode_latitude thirteen) ≡ pos 12
unfolding encode_latitude decode_latitude to_signed mul of_ℤ round half_even excess literal
latitude_lost = refl

encode_latitude-decode_latitude_example :
    (encode_latitude (decode_latitude thirteen) ≡ pos 13)
    ⊎ (encode_latitude (decode_latitude thirteen) ≡ pos 12)
encode_latitude-decode_latitude_example = encode_latitude-decode_latitude thirteen (omega arith)
