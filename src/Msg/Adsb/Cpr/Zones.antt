-- ===== src/Msg/Adsb/Cpr/Zones.antt =====
-- modulus(latitude, 6.) of server/src/msg/adsb.rs: the place of a latitude in its even zone.
use svc_telemetry.Base.{
  ℕ, ◌+◌, ◌-◌, ◌*◌, ◌/◌, ◌%◌, ◌^◌, ◌≤◌, ◌<◌, ◌≡◌, refl, ap, ◌∙◌, arith, Bool, true, false, leb,
  ◌==◌, Bool-cases, inl, inr,
}
use svc_telemetry.Float.{Float, f64, fin, div, mul, floor, round}
use svc_telemetry.Float.Exact.{round-exact}
use svc_telemetry.Float.Near.{quotient-near}
use svc_telemetry.Float.Fixed.{part, sub-back, sub-part}
use svc_telemetry.Msg.Adsb.{modulus}
use svc_telemetry.Msg.Adsb.Cpr.Latitude.{degrees}

abbrev pub six : Float
six = fin false (6 * 2 ^ 1074)

-- n units of 2 ^ -17 degrees in zones of six degrees.
floor_zones :
    (n : ℕ) → n < 2 ^ 27 → floor f64 (div f64 (part n) six) ≡ fin false (n / 786432 * 2 ^ 1074)
unfolding floor div
floor_zones n h = elim (Bool-cases (n % 786432 == 0)) [
  | inl q ↦
      let e : n ≡ n / 786432 * 786432 = ground (arith, q) in
      let w : round f64 false (n * 2 ^ 1057 * 2 ^ 1074) (6 * 2 ^ 1074)
          ≡ fin false (n / 786432 * 2 ^ 1074) =
        ap (λ (v : ℕ). round f64 false v (6 * 2 ^ 1074)) (omega (arith, e))
        ∙ round-exact f64 false (n / 786432) 1074 (n / 786432 * 2 ^ 1074) (6 * 2 ^ 1074)
            (omega arith) refl (omega (arith, h)) (omega (arith, h)) in
      rw w (ap (λ (v : ℕ). fin false (v * 2 ^ 1074)) (omega arith))
  | inr q ↦
      let p : 0 < n % 786432 = ground (arith, q) in
      let (m, e, a, b) =
        quotient-near false (n * 2 ^ 1057 * 2 ^ 1074) (6 * 2 ^ 1074) (omega arith)
          (omega (arith, h)) in
      let z : m / 2 ^ 1074 ≡ n / 786432 = omega (arith, a, b, h, p) in
      rw e (ap (λ (v : ℕ). fin false (v * 2 ^ 1074)) z)
]

six_times :
    (s : Bool) (k : ℕ)
    → k < 2 ^ 27
    → mul f64 six (fin s (k * 2 ^ 1074)) ≡ fin s (k * 786432 * 2 ^ 1057)
unfolding mul
six_times s k h =
    ap (λ (v : ℕ). round f64 s v (2 ^ 1074)) (omega arith)
    ∙ round-exact f64 s (k * 786432) 1057 (k * 786432 * 2 ^ 1057) (2 ^ 1074) (omega arith) refl
        (omega (arith, h)) (omega (arith, h))

modulus_north : (n : ℕ) → n < 2 ^ 27 → modulus (part n) six ≡ part (n % 786432)
unfolding modulus
modulus_north n h = rw (floor_zones n h) (
    rw (six_times false (n / 786432) (omega (arith, h)))
      (sub-part n (n / 786432 * 786432) (omega (arith, h)) (omega (arith, h)) ∙ ground arith))

-- The southern latitudes.
ceil_zones :
    (n : ℕ)
    → n < 2 ^ 27
    → floor f64 (div f64 (fin true (n * 2 ^ 1057)) six)
      ≡ fin true ((n + 786431) / 786432 * 2 ^ 1074)
unfolding floor div
ceil_zones n h = elim (Bool-cases (n % 786432 == 0)) [
  | inl q ↦
      let e : n ≡ n / 786432 * 786432 = ground (arith, q) in
      let w : round f64 true (n * 2 ^ 1057 * 2 ^ 1074) (6 * 2 ^ 1074)
          ≡ fin true (n / 786432 * 2 ^ 1074) =
        ap (λ (v : ℕ). round f64 true v (6 * 2 ^ 1074)) (omega (arith, e))
        ∙ round-exact f64 true (n / 786432) 1074 (n / 786432 * 2 ^ 1074) (6 * 2 ^ 1074)
            (omega arith) refl (omega (arith, h)) (omega (arith, h)) in
      rw w (ap (λ (v : ℕ). fin true (v * 2 ^ 1074)) (omega (arith, e)))
  | inr q ↦
      let p : 0 < n % 786432 = ground (arith, q) in
      let (m, e, a, b) =
        quotient-near true (n * 2 ^ 1057 * 2 ^ 1074) (6 * 2 ^ 1074) (omega arith)
          (omega (arith, h)) in
      let z : (m + (2 ^ 1074 - 1)) / 2 ^ 1074 ≡ (n + 786431) / 786432 = omega (arith, a, b, h, p) in
      rw e (ap (λ (v : ℕ). fin true (v * 2 ^ 1074)) z)
]

modulus_south :
    (n : ℕ)
    → n ≤ 360 * 2 ^ 17
    → modulus (fin true (n * 2 ^ 1057)) six ≡ part ((360 * 2 ^ 17 - n) % 786432)
unfolding modulus
modulus_south n h = rw (ceil_zones n (omega (arith, h))) (
    rw (six_times true ((n + 786431) / 786432) (omega (arith, h))) (
      sub-back n ((n + 786431) / 786432 * 786432) (omega arith) (omega (arith, h))
      ∙ ap (λ (v : ℕ). fin false (v * 2 ^ 1057)) (omega (arith, h))))

pub modulus-degrees : (n : ℕ) → n < 360 * 2 ^ 17 → modulus (degrees n) six ≡ part (n % 786432)
modulus-degrees n h = elim (Bool-cases (leb (270 * 2 ^ 17) n)) [
  | inl q ↦ rw q (
      modulus_south (360 * 2 ^ 17 - n) (omega arith)
      ∙ ap (λ (v : ℕ). part (v % 786432)) (omega (arith, h)))
  | inr q ↦ rw q (modulus_north n (omega (arith, h)))
]
