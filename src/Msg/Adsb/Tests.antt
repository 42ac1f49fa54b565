-- ===== src/Msg/Adsb/Tests.antt =====
-- The theorems on server/src/msg/adsb.rs applied to concrete packets.
use svc_telemetry.Base.{
  ℕ, ◌+◌, ◌*◌, ◌^◌, ◌<◌, ◌≤◌, ◌≡◌, refl, ◌⊎◌, inl, arith, ok, err, ◌%◌, true, false,
}
use svc_telemetry.Float.{Float, fin, f32, literal, mul, of_ℕ, div, to_unsigned}
use svc_telemetry.Msg.Adsb.{
  Libm, positive, negative, decode_altitude, encode_altitude, altitude_feet, altitude_steps,
  decode_speed_direction, modulus, decode_cpr, encode_cpr, num, crossed_latitude_zones,
}
use svc_telemetry.Msg.Adsb.Altitude.{
  decode_altitude-encode_altitude, altitude_feet_wraps, step_feet,
}
use svc_telemetry.Msg.Adsb.Cpr.Latitude.{same_zones, odd_latitude, degrees}
use svc_telemetry.Msg.Adsb.Cpr.Codes.{code, rounded, decode_cpr-code}
use svc_telemetry.Msg.Adsb.Cpr.Encoding.{encode_cpr-even}
use svc_telemetry.Msg.Adsb.Velocity.{decode_speed_direction-speed, ground_speed}

-- 1000 m are 3280 whole feet.
thousand_metres : to_unsigned f32 16 (div f32 (literal f32 1000 1) (literal f32 3048 10000)) ≡ 3280
unfolding to_unsigned div literal svc_telemetry.Float.round svc_telemetry.Float.excess
    svc_telemetry.Float.half_even
thousand_metres = refl

decode_altitude-encode_altitude_example :
    decode_altitude (encode_altitude (literal f32 1000 1))
    ≡ mul f32 (literal f32 3048 10000) (of_ℕ f32 3275)
decode_altitude-encode_altitude_example =
    decode_altitude-encode_altitude (literal f32 1000 1) 3280 thousand_metres (omega arith)

-- 0x010 is the 12-bit word of zero steps: -1000 ft.
altitude_feet_wraps_example :
    ((altitude_feet 0x010 + 1000 ≡ altitude_steps 0x010 * step_feet 0x010)
      × (altitude_feet 0x010 < 2 ^ 18))
    ⊎ ((altitude_steps 0x010 * step_feet 0x010 < 1000) × (4_294_966_296 ≤ altitude_feet 0x010))
altitude_feet_wraps_example = altitude_feet_wraps 0x010 (omega arith)

-- Whatever the mathematical library does.
abbrev plain : Libm
plain = record { cos = λ x. x; acos = λ x. x; atan2 = λ y x. y }

decode_speed_direction-speed_example :
    (d : Float) × (decode_speed_direction plain 1 negative 9 positive 160
      ≡ ok (ground_speed 8 159, d))
decode_speed_direction-speed_example =
    decode_speed_direction-speed plain 1 9 160 negative positive (inl refl) (omega arith)
      (omega arith)

-- 52.25 degrees, 5225 of 36000 parts of the circle.
accepted :
    same_zones plain
      (degrees (6 * (rounded 60 5225 36000 % (60 * 2 ^ 17))))
      (odd_latitude (code 60 5225 36000) (code 59 5225 36000))
    ≡ true
unfolding same_zones odd_latitude literal svc_telemetry.Float.round svc_telemetry.Float.excess
    svc_telemetry.Float.half_even svc_telemetry.Float.add svc_telemetry.Float.sub
    svc_telemetry.Float.negate mul div of_ℕ svc_telemetry.Float.floor svc_telemetry.Float.lt
    svc_telemetry.Float.le svc_telemetry.Float.feq modulus
accepted = refl

decode_cpr-code_example :
    ((same_zones plain
          (degrees (6 * (rounded 60 5225 36000 % (60 * 2 ^ 17))))
          (odd_latitude (code 60 5225 36000) (code 59 5225 36000))
        ≡ true)
      × ((longitude : Float) × (decode_cpr plain
              (code 60 5225 36000)
              51372
              (code 59 5225 36000)
              50194
            ≡ ok (degrees (6 * (rounded 60 5225 36000 % (60 * 2 ^ 17))), longitude))))
    ⊎ ((same_zones plain
            (degrees (6 * (rounded 60 5225 36000 % (60 * 2 ^ 17))))
            (odd_latitude (code 60 5225 36000) (code 59 5225 36000))
          ≡ false)
        × (decode_cpr plain (code 60 5225 36000) 51372 (code 59 5225 36000) 50194
            ≡ err crossed_latitude_zones))
decode_cpr-code_example = decode_cpr-code plain 5225 36000 51372 50194 (omega arith)

encode_cpr-even_example :
    (longitude_code : ℕ) × (encode_cpr plain 0 (num 4) (degrees 6848512)
      ≡ ok (longitude_code, code 60 6848512 (360 * 2 ^ 17)))
encode_cpr-even_example = encode_cpr-even plain 6848512 (num 4) (omega arith)
