-- ===== src/Msg/Adsb/Cpr/Encoding.antt =====
-- encode_cpr of server/src/msg/adsb.rs for even packets: its latitude is the code of the standard.
use svc_telemetry.Base.{
  ℕ, ◌+◌, ◌-◌, ◌*◌, ◌/◌, ◌%◌, ◌^◌, ◌≤◌, ◌<◌, ◌≡◌, ◌≢◌, refl, ap, ◌∙◌, arith, false, ◌==◌, ok,
  Bool-cases, inl, inr,
}
use svc_telemetry.Float.{
  Float, f64, fin, literal, div, mul, add, sub, floor, negate, round, excess, half_even,
  to_unsigned,
}
use svc_telemetry.Float.Exact.{round-exact}
use svc_telemetry.Float.Near.{quotient-near}
use svc_telemetry.Float.Fixed.{part, literal-whole, literal-half, mul-part}
use svc_telemetry.Msg.Adsb.{Libm, num, modulus, encode_cpr_at, encode_cpr}
use svc_telemetry.Msg.Adsb.Cpr.Latitude.{degrees}
use svc_telemetry.Msg.Adsb.Cpr.Codes.{code}
use svc_telemetry.Msg.Adsb.Cpr.Zones.{six, modulus-degrees}

-- The place in a zone, to the nearest 2 ^ 17th.
half_place :
    (r : ℕ)
    → r % 6 ≡ 3
    → r < 786432
    → add f64 (div f64 (part (131072 * r)) six) (part (2 ^ 16)) ≡ fin false ((r + 3) / 6 * 2 ^ 1074)
unfolding add div
half_place r e h =
    let w : round f64 false (131072 * r * 2 ^ 1057 * 2 ^ 1074) (6 * 2 ^ 1074)
        ≡ fin false (r / 3 * 2 ^ 1073) =
      ap (λ (v : ℕ). round f64 false v (6 * 2 ^ 1074)) (omega (arith, e))
      ∙ round-exact f64 false (r / 3) 1073 (r / 3 * 2 ^ 1073) (6 * 2 ^ 1074) (omega arith) refl
          (omega (arith, h)) (omega (arith, h)) in
    rw w (
      ap (λ (v : ℕ). round f64 false v 1) (omega (arith, e))
      ∙ round-exact f64 false ((r + 3) / 6) 1074 ((r + 3) / 6 * 2 ^ 1074) 1 (omega arith) refl
          (omega (arith, h)) (omega (arith, h)))

near_place :
    (r : ℕ)
    → r % 6 ≢ 3
    → r < 786432
    → floor f64 (add f64 (div f64 (part (131072 * r)) six) (part (2 ^ 16)))
      ≡ fin false ((r + 3) / 6 * 2 ^ 1074)
unfolding add div floor
near_place r n h =
    let (m, e, a, b) =
      quotient-near false (131072 * r * 2 ^ 1057 * 2 ^ 1074) (6 * 2 ^ 1074) (omega arith)
        (omega (arith, h)) in
    let (m', e', a', b') =
      quotient-near false (m + 2 ^ 16 * 2 ^ 1057) 1 (omega arith) (omega (arith, h, a)) in
    let z : m' / 2 ^ 1074 ≡ (r + 3) / 6 = omega (arith, a, b, a', b', h, n) in
    rw e (rw e' (ap (λ (v : ℕ). fin false (v * 2 ^ 1074)) z))

floor_whole : (n : ℕ) → floor f64 (fin false (n * 2 ^ 1074)) ≡ fin false (n * 2 ^ 1074)
unfolding floor
floor_whole n = ap (λ (v : ℕ). fin false (v * 2 ^ 1074)) (omega arith)

floor_place :
    (r : ℕ)
    → r < 786432
    → floor f64 (add f64 (div f64 (part (131072 * r)) six) (part (2 ^ 16)))
      ≡ fin false ((r + 3) / 6 * 2 ^ 1074)
floor_place r h = elim (Bool-cases (r % 6 == 3)) [
  | inl q ↦ rw (half_place r (ground (arith, q)) h) (floor_whole ((r + 3) / 6))
  | inr q ↦ near_place r (ground (arith, q)) h
]

-- `modulus(yz, SCALAR)`; a place that is rounded up to the end of its zone is the first of the next.
div_scalar :
    (y : ℕ)
    → y < 2 ^ 20
    → div f64 (fin false (y * 2 ^ 1074)) (fin false (131072 * 2 ^ 1074)) ≡ part y
unfolding div
div_scalar y h =
    ap (λ (v : ℕ). round f64 false v (131072 * 2 ^ 1074)) (omega arith)
    ∙ round-exact f64 false y 1057 (y * 2 ^ 1057) (131072 * 2 ^ 1074) (omega arith) refl
        (omega (arith, h)) (omega (arith, h))

floor-part : (y : ℕ) → floor f64 (part y) ≡ fin false (y / 131072 * 2 ^ 1074)
unfolding floor
floor-part y = ap (λ (v : ℕ). fin false (v * 2 ^ 1074)) (omega arith)

scalar_times :
    (k : ℕ)
    → k < 2 ^ 20
    → mul f64 (fin false (131072 * 2 ^ 1074)) (fin false (k * 2 ^ 1074))
      ≡ fin false (131072 * k * 2 ^ 1074)
unfolding mul
scalar_times k h =
    ap (λ (v : ℕ). round f64 false v (2 ^ 1074)) (omega arith)
    ∙ round-exact f64 false (131072 * k) 1074 (131072 * k * 2 ^ 1074) (2 ^ 1074) (omega arith) refl
        (omega (arith, h)) (omega (arith, h))

sub_whole :
    (a b : ℕ)
    → a < 2 ^ 20
    → b ≤ a
    → sub f64 (fin false (a * 2 ^ 1074)) (fin false (b * 2 ^ 1074)) ≡ fin false ((a - b) * 2 ^ 1074)
unfolding sub add negate
sub_whole a b h l =
    ground (arith, round-exact f64 false (a - b) 1074 (a * 2 ^ 1074 - b * 2 ^ 1074) 1 (omega arith))

modulus_scalar :
    (y : ℕ)
    → y < 2 ^ 20
    → modulus (fin false (y * 2 ^ 1074)) (fin false (131072 * 2 ^ 1074))
      ≡ fin false (y % 131072 * 2 ^ 1074)
unfolding modulus
modulus_scalar y h = rw (div_scalar y h) (
    rw (floor-part y) (
      rw (scalar_times (y / 131072) (omega (arith, h))) (
        sub_whole y (131072 * (y / 131072)) h (omega arith)
        ∙ ap (λ (v : ℕ). fin false (v * 2 ^ 1074)) (omega arith))))

even_height : div f64 (num 360) (sub f64 (num 60) (num 0)) ≡ six
unfolding div sub add negate literal round excess half_even
even_height = refl

place_code : (n : ℕ) → (n % 786432 + 3) / 6 % 131072 ≡ code 60 n (360 * 2 ^ 17)
place_code n = omega arith

code_word : (k : ℕ) → k < 2 ^ 32 → to_unsigned f64 32 (fin false (k * 2 ^ 1074)) ≡ k
unfolding to_unsigned
code_word k h = let e : k * 2 ^ 1074 / 2 ^ 1074 ≡ k = omega arith in rw e (ground (arith, h))

latitude_code : Float → ℕ
latitude_code latitude =
    let dlat = div f64 (num 360) (sub f64 (num 60) (num 0)) in
    to_unsigned f64 32 (
      modulus
        (floor f64
          (add f64 (div f64 (mul f64 (num 131072) (modulus latitude dlat)) dlat) (literal f64 1 2)))
        (num 131072))

latitude_code-degrees :
    (n : ℕ) → n < 360 * 2 ^ 17 → latitude_code (degrees n) ≡ code 60 n (360 * 2 ^ 17)
unfolding latitude_code
latitude_code-degrees n h = rw even_height (
    rw (modulus-degrees n h) (
      rw (mul-part 131072 (n % 786432) (omega arith) (omega arith)) (
        rw literal-half (
          rw (floor_place (n % 786432) (omega arith)) (
            rw (literal-whole 131072 (omega arith)) (
              rw (modulus_scalar ((n % 786432 + 3) / 6) (omega arith))
                (code_word ((n % 786432 + 3) / 6 % 131072) (omega arith) ∙ place_code n)))))))

-- For any latitude of n / 2 ^ 17 degrees around the circle, from 270 degrees on less 360, at any longitude
-- and whatever the functions of the mathematical library return: encode_cpr of an even packet yields the
-- code of this latitude in the standard, the f64 arithmetic notwithstanding.
pub encode_cpr-even :
    (lib : Libm) (n : ℕ) (longitude : Float)
    → n < 360 * 2 ^ 17
    → (longitude_code : ℕ) × (encode_cpr lib 0 longitude (degrees n)
        ≡ ok (longitude_code, code 60 n (360 * 2 ^ 17)))
unfolding encode_cpr latitude_code
encode_cpr-even lib n longitude h =
    let x = (encode_cpr_at lib (num 0) longitude (degrees n)).0 in
    (x, ap (λ (c : ℕ). ok (x, c)) (latitude_code-degrees n h))
