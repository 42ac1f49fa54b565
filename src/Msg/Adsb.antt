-- ===== src/Msg/Adsb.antt =====
-- The ADS-B codecs of server/src/msg/adsb.rs. A byte or machine word is a number below its bound, and
-- the arithmetic wraps, as in a release build. `Sign` is the enumeration of the adsb_deku library.
-- The trigonometric functions of the platform are the parameters `Libm`.

pub mod Address
pub mod Altitude
pub mod Cpr
pub mod Velocity
mod Tests
use Prim.Native.Nat.{bit_and, bit_or}
use svc_telemetry.Base.{
  ℕ, ◌+◌, ◌-◌, ◌*◌, ◌/◌, ◌%◌, ◌^◌, Bool, true, false, List, if◌then◌else◌, ltb, ◌==◌, get_or,
  Result, ok, err, String, ◌>>=◌,
}
use svc_telemetry.Base.Int.{ℤ, pos, negsuc, sub_ℕ, add_i32, mul_i32, neg_i32}
use svc_telemetry.Float.{
  Float, f32, f64, literal, negate, add, sub, mul, div, lt, le, feq, floor, sqrt, of_ℕ, of_ℤ,
  to_unsigned,
}

abbrev pub adsb_size_bytes : ℕ
adsb_size_bytes = 14

pub data DecodeError : Type 0 where
  crossed_latitude_zones unsupported_subtype invalid_subtype : DecodeError

pub data EncodeError : Type 0 where
  invalid_flag : EncodeError

pub data Sign : Type 0 where
  positive negative : Sign

abbrev pub decode_error_fmt : DecodeError → String
decode_error_fmt crossed_latitude_zones = "Crossed latitude zones"
decode_error_fmt unsupported_subtype = "Unsupported subtype"
decode_error_fmt invalid_subtype = "Invalid subtype"

abbrev pub encode_error_fmt : EncodeError → String
encode_error_fmt invalid_flag = "Invalid CPR flag"

-- Big-endian, under a zero byte.
unfoldable pub get_adsb_icao_address : List ℕ → ℕ
get_adsb_icao_address icao = (get_or icao 0 0 * 256 + get_or icao 1 0) * 256 + get_or icao 2 0

unfoldable pub get_adsb_message_type : List ℕ → ℕ
get_adsb_message_type bytes = bit_and (get_or bytes 4 0 / 2 ^ 3) 0x1f

-- The steps of 25 or 100 feet, without bit 48.
pub altitude_steps : ℕ → ℕ
altitude_steps altitude = bit_or (bit_and 0xfe0 altitude / 2) (bit_and 0xf altitude)

-- `n * coef_ft - 1000` of u32.
pub altitude_feet : ℕ → ℕ
unfolding altitude_steps
altitude_feet altitude =
    let coef_ft = if ltb 0 (bit_and 0x010 altitude) then 25 else 100 in
    (altitude_steps altitude * coef_ft % 2 ^ 32 + 2 ^ 32 - 1000) % 2 ^ 32

unfoldable pub decode_altitude : ℕ → Float
unfolding altitude_feet
decode_altitude altitude = mul f32 (literal f32 3048 10000) (of_ℕ f32 (altitude_feet altitude))

-- The top bits over by one, the Q-bit, and the bottom four bits.
altitude_word : ℕ → ℕ
altitude_word altitude =
    bit_or (bit_or (bit_and altitude 0xfff0 * 2 % 2 ^ 16) 0x10) (bit_and altitude 0xf)

-- From whole feet, the cast of the quotient.
encode_feet : ℕ → ℕ
unfolding altitude_word
encode_feet feet = altitude_word ((feet + 1000) % 2 ^ 16 / 25)

unfoldable pub encode_altitude : Float → ℕ
unfolding encode_feet
encode_altitude altitude_m =
    encode_feet (to_unsigned f32 16 (div f32 altitude_m (literal f32 3048 10000)))

pub modulus : Float → Float → Float
modulus x y = sub f64 x (mul f64 y (floor f64 (div f64 x y)))

-- The functions of std that call the platform's mathematical library.
pub record Libm : Type 0 where
  pub cos : Float → Float
  pub acos : Float → Float
  pub atan2 : Float → Float → Float

abbrev pub num : ℕ → Float
num n = literal f64 n 1

pi : Float
pi = literal f64 314159265358979323846264338327950288 (10 ^ 35)

-- `x.clamp(-1., 1.)`, which keeps a NaN.
clamp_unit : Float → Float
clamp_unit x = if lt x (negate (num 1)) then negate (num 1) else if lt (num 1) x then num 1 else x

-- `1.0_f64.max(x)`, which prefers a number to a NaN.
max_one : Float → Float
max_one x = if lt (num 1) x then x else num 1

module _ (lib : Libm) where
  pub nl : Float → Float
  unfolding pi clamp_unit
  nl lat =
      let numerator = mul f64 (num 2) pi in
      let a = sub f64 (num 1) (lib.cos (div f64 pi (num 30))) in
      let angle = mul f64 (num 2) (div f64 (mul f64 pi lat) (num 180)) in
      let b = div f64 (add f64 (num 1) (lib.cos angle)) (num 2) in
      let denominator = lib.acos (clamp_unit (sub f64 (num 1) (div f64 a b))) in
      floor f64 (div f64 numerator denominator)

  pub longitude_of : Float → Float → Float → Float
  unfolding modulus
  longitude_of nl_le lon_cpr_even lon_cpr_odd =
      let ni = if lt nl_le (num 1) then num 1 else nl_le in
      let dlon = div f64 (num 360) ni in
      let m = floor f64 (
        add f64 (sub f64 (mul f64 lon_cpr_even (sub f64 nl_le (num 1))) (mul f64 lon_cpr_odd nl_le))
          (literal f64 1 2)) in
      let longitude = mul f64 dlon (add f64 (modulus m ni) lon_cpr_even) in
      if le (num 180) longitude then sub f64 longitude (num 360) else longitude

  unfoldable pub decode_cpr : ℕ → ℕ → ℕ → ℕ → Result DecodeError (Float × Float)
  unfolding modulus nl longitude_of
  decode_cpr lat_even lon_even lat_odd lon_odd =
      let lat_cpr_even = div f64 (of_ℕ f64 lat_even) (num 131072) in
      let lon_cpr_even = div f64 (of_ℕ f64 lon_even) (num 131072) in
      let lat_cpr_odd = div f64 (of_ℕ f64 lat_odd) (num 131072) in
      let lon_cpr_odd = div f64 (of_ℕ f64 lon_odd) (num 131072) in
      let lat_index = floor f64 (
        add f64 (sub f64 (mul f64 (num 59) lat_cpr_even) (mul f64 (num 60) lat_cpr_odd))
          (literal f64 1 2)) in
      let dlat_odd = literal f64 6101694915254237 (10 ^ 15) in
      let north = λ (x : Float). if le (num 270) x then sub f64 x (num 360) else x in
      let latitude = north (mul f64 (num 6) (add f64 lat_cpr_even (modulus lat_index (num 60)))) in
      let lat_odd_deg =
        north (mul f64 dlat_odd (add f64 lat_cpr_odd (modulus lat_index (num 59)))) in
      if feq (nl latitude) (nl lat_odd_deg)
      then ok (latitude, longitude_of (nl latitude) lon_cpr_even lon_cpr_odd)
      else err crossed_latitude_zones

  encode_cpr_at : Float → Float → Float → ℕ × ℕ
  unfolding modulus nl max_one
  encode_cpr_at i longitude latitude =
      let scalar = num 131072 in
      let half = literal f64 1 2 in
      let dlat = div f64 (num 360) (sub f64 (num 60) i) in
      let yz = floor f64 (add f64 (div f64 (mul f64 scalar (modulus latitude dlat)) dlat) half) in
      let cpr_latitude = modulus yz scalar in
      let rlat =
        mul f64 dlat (add f64 (floor f64 (div f64 latitude dlat)) (div f64 cpr_latitude scalar)) in
      let dlon = div f64 (num 360) (max_one (sub f64 (nl rlat) i)) in
      let xz = floor f64 (add f64 (div f64 (mul f64 scalar (modulus longitude dlon)) dlon) half) in
      (to_unsigned f64 32 (modulus xz scalar), to_unsigned f64 32 cpr_latitude)

  unfoldable pub encode_cpr : ℕ → Float → Float → Result EncodeError (ℕ × ℕ)
  unfolding encode_cpr_at
  encode_cpr cpr_flag longitude latitude =
      if cpr_flag == 0
      then ok (encode_cpr_at (num 0) longitude latitude)
      else if cpr_flag == 1
      then ok (encode_cpr_at (num 1) longitude latitude)
      else err invalid_flag

-- One component of the velocity: `vel - 1` with the sign and the scale of the subtype, an i32.
pub component : ℕ → Sign → ℕ → ℤ
component scale positive vel = mul_i32 (pos scale) (sub_ℕ vel 1)
component scale negative vel = neg_i32 (mul_i32 (pos scale) (sub_ℕ vel 1))

pub velocity : ℕ → Sign → ℕ → Sign → ℕ → Result DecodeError (ℤ × ℤ)
unfolding component
velocity st ew_sign ew_vel ns_sign ns_vel =
    if st == 1
    then ok (component 1 ew_sign ew_vel, component 1 ns_sign ns_vel)
    else if st == 2
    then ok (component 4 ew_sign ew_vel, component 4 ns_sign ns_vel)
    else if st == 3
    then err unsupported_subtype
    else if st == 4
    then err unsupported_subtype
    else err invalid_subtype

-- `vx.pow(2) + vy.pow(2)`
pub speed_square : ℤ × ℤ → ℤ
speed_square (vx, vy) = add_i32 (mul_i32 vx vx) (mul_i32 vy vy)

pub speed_mps : ℤ × ℤ → Float
unfolding speed_square
speed_mps v = mul f32 (sqrt f32 (of_ℤ f32 (speed_square v))) (literal f32 514444 1000000)

pub direction_degrees : Libm → ℤ × ℤ → Float
direction_degrees lib (vx, vy) =
    let pi_f32 = literal f32 314159265358979323846264338327950288 (10 ^ 35) in
    let coefficient = div f32 (literal f32 360 1) (mul f32 (literal f32 2 1) pi_f32) in
    let direction = mul f32 (lib.atan2 (of_ℤ f32 vx) (of_ℤ f32 vy)) coefficient in
    if lt direction (literal f32 0 1) then add f32 direction (literal f32 360 1) else direction

unfoldable pub decode_speed_direction :
    Libm → ℕ → Sign → ℕ → Sign → ℕ → Result DecodeError (Float × Float)
unfolding velocity speed_mps direction_degrees
decode_speed_direction lib st ew_sign ew_vel ns_sign ns_vel = do
  v ← velocity st ew_sign ew_vel ns_sign ns_vel
  ok (speed_mps v, direction_degrees lib v)

unfoldable pub decode_vertical_speed : Sign → ℕ → Result DecodeError Float
unfolding component
decode_vertical_speed vrate_sign vrate_value =
    ok (mul f32 (of_ℤ f32 (component 64 vrate_sign vrate_value)) (literal f32 3048 10000))
