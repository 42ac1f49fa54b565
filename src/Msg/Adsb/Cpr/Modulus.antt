-- ===== src/Msg/Adsb/Cpr/Modulus.antt =====
-- modulus(k, 60.) of server/src/msg/adsb.rs for the whole numbers that decode_cpr meets.
use svc_telemetry.Base.{
  ℕ, ◌+◌, ◌-◌, ◌*◌, ◌/◌, ◌%◌, ◌^◌, ◌≤◌, ◌<◌, ◌≡◌, refl, ap, ◌∙◌, arith, true, false, leb, ltb,
  Bool-cases, inl, inr,
}
use svc_telemetry.Float.{
  Float, f64, fin, div, mul, add, sub, floor, round, excess, half_even, negate,
}
use svc_telemetry.Float.Exact.{round-exact}
use svc_telemetry.Float.Near.{quotient-near, round-integer}
use svc_telemetry.Float.Fixed.{whole_diff, literal-whole}
use svc_telemetry.Msg.Adsb.{num, modulus}

abbrev sixty : Float
sixty = fin false (60 * 2 ^ 1074)

-- The quotient of a whole number below 60, or above -61, by 60.
floor_positive :
    (k : ℕ) → k < 60 → floor f64 (div f64 (fin false (k * 2 ^ 1074)) sixty) ≡ fin false 0
unfolding floor div
floor_positive k h =
    let (m, e, a, b) =
      quotient-near false (k * 2 ^ 1074 * 2 ^ 1074) (60 * 2 ^ 1074) (omega arith)
        (omega (arith, h)) in
    let z : m / 2 ^ 1074 ≡ 0 = omega (arith, a, h) in rw e (rw z refl)

floor_above_minus_sixty :
    (k : ℕ)
    → 0 < k
    → k < 60
    → floor f64 (div f64 (fin true (k * 2 ^ 1074)) sixty) ≡ fin true (2 ^ 1074)
unfolding floor div
floor_above_minus_sixty k h l =
    let (m, e, a, b) =
      quotient-near true (k * 2 ^ 1074 * 2 ^ 1074) (60 * 2 ^ 1074) (omega arith)
        (omega (arith, l)) in
    let z : (m + (2 ^ 1074 - 1)) / 2 ^ 1074 ≡ 1 = omega (arith, a, b, h, l) in rw e (rw z refl)

floor_minus_sixty : floor f64 (div f64 (fin true (60 * 2 ^ 1074)) sixty) ≡ fin true (2 ^ 1074)
unfolding floor div
floor_minus_sixty =
    rw
      (round-exact f64 true 1 1074 (2 ^ 1074) (60 * 2 ^ 1074) (omega arith) refl (omega arith)
        (omega arith))
      refl

floor_negative :
    (k : ℕ)
    → 0 < k
    → k ≤ 60
    → floor f64 (div f64 (fin true (k * 2 ^ 1074)) sixty) ≡ fin true (2 ^ 1074)
floor_negative k h l = elim (Bool-cases (ltb k 60)) [
  | inl q ↦ floor_above_minus_sixty k h (ground (arith, q))
  | inr q ↦ let e : k ≡ 60 = ground (arith, q, l) in rw e floor_minus_sixty
]

-- 60 times the quotient, and the remainder.
times_zero : mul f64 sixty (fin false 0) ≡ fin false 0
unfolding mul round excess half_even
times_zero = refl

times_minus_one : mul f64 sixty (fin true (2 ^ 1074)) ≡ fin true (60 * 2 ^ 1074)
unfolding mul
times_minus_one =
    round-exact f64 true 60 1074 (60 * 2 ^ 1074) (2 ^ 1074) (omega arith) refl (omega arith)
      (omega arith)

minus_zero :
    (k : ℕ) → k < 60 → sub f64 (fin false (k * 2 ^ 1074)) (fin false 0) ≡ fin false (k * 2 ^ 1074)
unfolding sub add negate
minus_zero k h = ground (arith, round-integer false k (omega (arith, h)))

plus_sixty :
    (k : ℕ)
    → k ≤ 60
    → sub f64 (fin true (k * 2 ^ 1074)) (fin true (60 * 2 ^ 1074)) ≡ fin false ((60 - k) * 2 ^ 1074)
unfolding sub add negate
plus_sixty k h =
    ground
      (arith, round-exact f64 false (60 - k) 1074 (60 * 2 ^ 1074 - k * 2 ^ 1074) 1 (omega arith))

modulus_positive :
    (k : ℕ) → k < 60 → modulus (fin false (k * 2 ^ 1074)) sixty ≡ fin false (k * 2 ^ 1074)
unfolding modulus
modulus_positive k h = rw (floor_positive k h) (rw times_zero (minus_zero k h))

modulus_negative :
    (k : ℕ)
    → 0 < k
    → k ≤ 60
    → modulus (fin true (k * 2 ^ 1074)) sixty ≡ fin false ((60 - k) * 2 ^ 1074)
unfolding modulus
modulus_negative k p h = rw (floor_negative k p h) (rw times_minus_one (plus_sixty k h))

-- The remainder of k - 60 is that of k.
pub modulus-whole_diff :
    (k : ℕ) → k < 120 → modulus (whole_diff k 60) (num 60) ≡ fin false (k % 60 * 2 ^ 1074)
modulus-whole_diff k h = rw (literal-whole 60 (omega arith)) (elim (Bool-cases (leb 60 k)) [
  | inl q ↦ rw q (
      modulus_positive (k - 60) (ground (arith, q))
      ∙ ap (λ (n : ℕ). fin false (n * 2 ^ 1074)) (ground (arith, q)))
  | inr q ↦ rw q (
      modulus_negative (60 - k) (ground (arith, q)) (omega arith)
      ∙ ap (λ (n : ℕ). fin false (n * 2 ^ 1074)) (ground (arith, q)))
])
