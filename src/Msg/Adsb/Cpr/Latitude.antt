-- ===== src/Msg/Adsb/Cpr/Latitude.antt =====
-- The latitude of decode_cpr of server/src/msg/adsb.rs is exact: the f64 arithmetic rounds nowhere.
use svc_telemetry.Base.{
  ℕ, ◌+◌, ◌-◌, ◌*◌, ◌/◌, ◌%◌, ◌^◌, ◌<◌, ◌≡◌, refl, ap, arith, Bool, true, false, if◌then◌else◌, leb,
  ◌⊎◌, Result, ok, err, inl, inr,
}
use svc_telemetry.Float.{
  Float, f64, fin, literal, of_ℕ, div, mul, add, sub, floor, negate, le, lt, feq,
}
use svc_telemetry.Float.Exact.{round-exact}
use svc_telemetry.Float.Fixed.{
  part, whole_diff, literal-whole, literal-half, div-part, mul-part, add-part, sub-part, add-diff,
  floor-diff,
}
use svc_telemetry.Msg.Adsb.{Libm, DecodeError, crossed_latitude_zones, num, modulus, nl, decode_cpr}
use svc_telemetry.Msg.Adsb.Cpr.Modulus.{modulus-whole_diff}

-- The latitude zone that two codes of latitude tell, shifted by 60.
abbrev pub zone : ℕ → ℕ → ℕ
zone even odd = (59 * even + 2 ^ 16 + 60 * 2 ^ 17 - 60 * odd) / 2 ^ 17

-- n / 2 ^ 17 degrees, those from 270 on less 360.
abbrev pub degrees : ℕ → Float
degrees n = if leb (270 * 2 ^ 17) n then fin true ((360 * 2 ^ 17 - n) * 2 ^ 1057) else part n

lat_index : ℕ → ℕ → Float
lat_index even odd = floor f64 (
    add f64
      (sub f64 (mul f64 (num 59) (div f64 (of_ℕ f64 even) (num 131072)))
        (mul f64 (num 60) (div f64 (of_ℕ f64 odd) (num 131072))))
      (literal f64 1 2))

lat_index-zone :
    (even odd : ℕ)
    → even < 2 ^ 17
    → odd < 2 ^ 17
    → lat_index even odd ≡ whole_diff (zone even odd) 60
unfolding lat_index
lat_index-zone even odd h k = rw (div-part even h) (
    rw (div-part odd k) (
      rw (mul-part 59 even (omega arith) (omega (arith, h))) (
        rw (mul-part 60 odd (omega arith) (omega (arith, k))) (
          rw (sub-part (59 * even) (60 * odd) (omega (arith, h)) (omega (arith, k))) (
            rw literal-half (
              rw (add-diff (59 * even) (60 * odd) (2 ^ 16) (omega (arith, h)) (omega (arith, k)))
                (floor-diff (59 * even + 2 ^ 16) (60 * odd) (omega (arith, k)))))))))

north : Float → Float
north x = if le (num 270) x then sub f64 x (num 360) else x

north-part : (n : ℕ) → n < 360 * 2 ^ 17 → north (part n) ≡ degrees n
unfolding north le lt feq sub add negate
north-part n h = rw (literal-whole 270 (omega arith)) (
    rw (literal-whole 360 (omega arith)) (
      ground (
        arith,
        round-exact f64 true (360 * 2 ^ 17 - n) 1057 (360 * 2 ^ 1074 - n * 2 ^ 1057) 1
            (omega arith),
      )))

pub even_latitude : ℕ → ℕ → Float
even_latitude even odd = north (
    mul f64 (num 6)
      (add f64 (div f64 (of_ℕ f64 even) (num 131072)) (modulus (lat_index even odd) (num 60))))

pub even_latitude-degrees :
    (even odd : ℕ)
    → even < 2 ^ 17
    → odd < 2 ^ 17
    → even_latitude even odd ≡ degrees (6 * (even + 2 ^ 17 * (zone even odd % 60)))
unfolding even_latitude
even_latitude-degrees even odd h k = rw (lat_index-zone even odd h k) (
    rw (modulus-whole_diff (zone even odd) (omega (arith, h, k))) (
      rw (div-part even h) (
        rw (whole (zone even odd % 60)) (
          rw (add-part even (2 ^ 17 * (zone even odd % 60)) (omega (arith, h))) (
            rw (mul-part 6 (even + 2 ^ 17 * (zone even odd % 60)) (omega arith) (omega (arith, h)))
              (north-part (6 * (even + 2 ^ 17 * (zone even odd % 60))) (omega (arith, h))))))))
  where
    whole : (z : ℕ) → fin false (z * 2 ^ 1074) ≡ part (2 ^ 17 * z)
    whole z = ap (fin false) (omega arith)

-- The latitude of the odd code, in zones of 360 / 59 degrees.
unfoldable pub odd_latitude : ℕ → ℕ → Float
unfolding lat_index north
odd_latitude even odd = north (
    mul f64 (literal f64 6101694915254237 (10 ^ 15))
      (add f64 (div f64 (of_ℕ f64 odd) (num 131072)) (modulus (lat_index even odd) (num 59))))

-- Whether the two latitudes have the same number of longitude zones.
unfoldable pub same_zones : Libm → Float → Float → Bool
unfolding nl
same_zones lib latitude latitude_odd = feq (nl lib latitude) (nl lib latitude_odd)

choice :
    (b : Bool) (x : Float × Float) (r : Result DecodeError (Float × Float))
    → r ≡ (if b then ok x else err crossed_latitude_zones)
    → ((b ≡ true) × ((y : Float) × (r ≡ ok (x.0, y))))
      ⊎ ((b ≡ false) × (r ≡ err crossed_latitude_zones))
choice true (x, y) r h = inl (refl, (y, h))
choice false x r h = inr (refl, h)

pub decode_cpr-cases :
    (lib : Libm) (even lon_even odd lon_odd : ℕ) (latitude : Float)
    → latitude ≡ even_latitude even odd
    → ((same_zones lib latitude (odd_latitude even odd) ≡ true)
        × ((longitude : Float) × (decode_cpr lib even lon_even odd lon_odd
              ≡ ok (latitude, longitude))))
      ⊎ ((same_zones lib latitude (odd_latitude even odd) ≡ false)
          × (decode_cpr lib even lon_even odd lon_odd ≡ err crossed_latitude_zones))
unfolding decode_cpr even_latitude odd_latitude north lat_index same_zones
decode_cpr-cases lib even lon_even odd lon_odd latitude e =
    rw e (choice _ (even_latitude even odd, _) (decode_cpr lib even lon_even odd lon_odd) refl)
