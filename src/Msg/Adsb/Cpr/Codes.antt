-- ===== src/Msg/Adsb/Cpr/Codes.antt =====
-- The codes of latitudes in the compact position report of ADS-B: a circle of 60 even or 59 odd zones, and
-- 17 bits for the place in a zone.
use svc_telemetry.Base.{ℕ, ◌+◌, ◌*◌, ◌/◌, ◌%◌, ◌^◌, ◌≤◌, ◌<◌, ◌≡◌, sym, ap, ◌∙◌, arith}
use svc_telemetry.Base.{ok, err, ◌⊎◌, true, false}
use svc_telemetry.Float.{Float}
use svc_telemetry.Msg.Adsb.{Libm, crossed_latitude_zones, decode_cpr}
use svc_telemetry.Msg.Adsb.Cpr.Latitude.{
  zone, degrees, same_zones, odd_latitude, even_latitude-degrees, decode_cpr-cases,
}
use native.Mathlib.Nat.{div-add-mod', mod-lt, le_of_mul-le-mul_right}

-- The latitude 360 * n / d in units of a 2 ^ 17th of one of `zones` zones, to the nearest, halves up.
abbrev pub rounded : ℕ → ℕ → ℕ → ℕ
rounded zones n d = (2 * zones * 2 ^ 17 * n + d) / (2 * d)

-- Its code: the place in its zone.
abbrev pub code : ℕ → ℕ → ℕ → ℕ
code zones n d = rounded zones n d % 2 ^ 17

rounded-near :
    (zones n d : ℕ)
    → 0 < d
    → (2 * (rounded zones n d * d) ≤ 2 * zones * 2 ^ 17 * n + d)
      × (2 * zones * 2 ^ 17 * n < 2 * (rounded zones n d * d) + d)
rounded-near zones n d h =
    let w = div-add-mod' (2 * zones * 2 ^ 17 * n + d) (2 * d) in
    let l = mod-lt (2 * zones * 2 ^ 17 * n + d) {m = 2 * d} (omega (arith, h)) in
    (omega (arith, w), omega (arith, w, l))

-- The two roundings stay close, in units of a 60 * 59th of a zone.
close :
    (n d even odd : ℕ)
    → 0 < d
    → (2 * (even * d) ≤ 2 * 60 * 2 ^ 17 * n + d) × (2 * 60 * 2 ^ 17 * n < 2 * (even * d) + d)
    → (2 * (odd * d) ≤ 2 * 59 * 2 ^ 17 * n + d) × (2 * 59 * 2 ^ 17 * n < 2 * (odd * d) + d)
    → (59 * even ≤ 60 * odd + 60) × (60 * odd ≤ 59 * even + 60)
close n d even odd h (a, b) (a', b') = (
  le_of_mul-le-mul_right (omega (arith, a, b')) h,
  le_of_mul-le-mul_right (omega (arith, a', b)) h,
)

-- The zone that the codes of one latitude tell is that of its even rounding.
zone_of :
    (even odd : ℕ)
    → (59 * even ≤ 60 * odd + 60) × (60 * odd ≤ 59 * even + 60)
    → zone (even % 2 ^ 17) (odd % 2 ^ 17) % 60 ≡ even / 2 ^ 17 % 60
zone_of even odd (a, b) = omega (arith, a, b)

pub zone-code :
    (n d : ℕ)
    → 0 < d
    → 6 * (code 60 n d + 2 ^ 17 * (zone (code 60 n d) (code 59 n d) % 60))
      ≡ 6 * (rounded 60 n d % (60 * 2 ^ 17))
zone-code n d h =
    let c =
      close n d (rounded 60 n d) (rounded 59 n d) h (rounded-near 60 n d h)
        (rounded-near 59 n d h) in
    joined (rounded 60 n d) (rounded 59 n d) (zone_of (rounded 60 n d) (rounded 59 n d) c)
  where
    joined :
        (even odd : ℕ)
        → zone (even % 2 ^ 17) (odd % 2 ^ 17) % 60 ≡ even / 2 ^ 17 % 60
        → 6 * (even % 2 ^ 17 + 2 ^ 17 * (zone (even % 2 ^ 17) (odd % 2 ^ 17) % 60))
          ≡ 6 * (even % (60 * 2 ^ 17))
    joined even odd e = omega (arith, e)

-- For the even and the odd code of a latitude of 360 * n / d degrees, d positive, at any longitudes and
-- whatever the functions of the mathematical library return: decode_cpr yields this latitude to the
-- nearest 6 / 2 ^ 17 of a degree, halves up, around the circle and exactly in f64, from 270 degrees on
-- less 360; or, when the number of longitude zones there differs from that at the latitude of the odd
-- code, it is the error CrossedLatitudeZones.
pub decode_cpr-code :
    (lib : Libm) (n d lon_even lon_odd : ℕ)
    → 0 < d
    → ((same_zones lib
            (degrees (6 * (rounded 60 n d % (60 * 2 ^ 17))))
            (odd_latitude (code 60 n d) (code 59 n d))
          ≡ true)
        × ((longitude : Float) × (decode_cpr lib (code 60 n d) lon_even (code 59 n d) lon_odd
              ≡ ok (degrees (6 * (rounded 60 n d % (60 * 2 ^ 17))), longitude))))
      ⊎ ((same_zones lib
              (degrees (6 * (rounded 60 n d % (60 * 2 ^ 17))))
              (odd_latitude (code 60 n d) (code 59 n d))
            ≡ false)
          × (decode_cpr lib (code 60 n d) lon_even (code 59 n d) lon_odd
              ≡ err crossed_latitude_zones))
decode_cpr-code lib n d lon_even lon_odd h =
    decode_cpr-cases lib (code 60 n d) lon_even (code 59 n d) lon_odd _ (
      sym (
        even_latitude-degrees (code 60 n d) (code 59 n d) (omega arith) (omega arith)
        ∙ ap degrees (zone-code n d h)))
