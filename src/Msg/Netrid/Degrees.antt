-- ===== src/Msg/Netrid/Degrees.antt =====
-- The codecs of latitude and longitude of server/src/msg/netrid.rs: decode_latitude multiplies by 1e-7 and
-- encode_latitude by 1e7, both in f64, and cuts.
use svc_telemetry.Base.{
  ℕ, suc, ◌-◌, ◌*◌, ◌/◌, ◌^◌, ◌≤◌, ◌<◌, ◌≡◌, refl, ap, ◌∙◌, arith, Bool, true, false, ◌⊎◌, inl, inr,
  xor,
}
use svc_telemetry.Base.Int.{ℤ, pos, negsuc, sub_ℕ}
use svc_telemetry.Float.{f64, fin, literal, mul, of_ℤ, to_signed, round, excess, half_even}
use svc_telemetry.Float.Near.{IsNear, round-IsNear, round-integer}
use svc_telemetry.Msg.Netrid.{
  LocationMessage, decode_latitude, encode_latitude, decode_longitude, encode_longitude,
}

-- 1e-7 and 1e7 in f64.
abbrev unit : ℕ
unit = 7555786372591432 * 2 ^ 998

literal-unit : literal f64 1 10000000 ≡ fin false unit
unfolding literal round excess half_even
literal-unit = refl

literal-scale : literal f64 10000000 1 ≡ fin false (10000000 * 2 ^ 1074)
unfolding literal round excess half_even
literal-scale = refl

-- The values before and after a multiplication.
decoded-IsNear :
    (s : Bool) (n : ℕ)
    → n ≤ 2 ^ 31
    → (m : ℕ) × (mul f64 (fin s (n * 2 ^ 1074)) (fin false unit) ≡ fin (xor s false) m)
      × IsNear (n * unit) m
unfolding mul
decoded-IsNear s n small =
    let (m, e, near) =
      round-IsNear (xor s false) (n * unit) (2 ^ 1074) (omega arith) (omega (arith, small)) in
    (m, ap (λ (v : ℕ). round f64 (xor s false) v (2 ^ 1074)) (omega arith) ∙ e, near)

encoded-IsNear :
    (s : Bool) (n m : ℕ)
    → n ≤ 2 ^ 31
    → IsNear (n * unit) m
    → (k : ℕ) × (mul f64 (fin s m) (fin false (10000000 * 2 ^ 1074)) ≡ fin (xor s false) k)
      × IsNear (m * 10000000) k
unfolding mul
encoded-IsNear s n m small near =
    let (k, e, w) =
      round-IsNear (xor s false) (m * 10000000) (2 ^ 1074) (omega arith)
        (omega (arith, small, near.0)) in
    (k, ap (λ (v : ℕ). round f64 (xor s false) v (2 ^ 1074)) (omega arith) ∙ e, w)

-- The whole part.
cut :
    (n m k : ℕ)
    → n ≤ 2 ^ 31
    → IsNear (n * unit) m
    → IsNear (m * 10000000) k
    → (k / 2 ^ 1074 ≡ n) ⊎ (k / 2 ^ 1074 ≡ n - 1)
cut n m k small a b = omega (arith, small, a.0, a.1, b.0, b.1)

-- One step closer to 0.
abbrev pub toward_zero : ℤ → ℤ
toward_zero (pos n) = pos (n - 1)
toward_zero (negsuc k) = sub_ℕ 0 k

abbrev pub IsI32 : ℤ → Type 0
IsI32 (pos n) = n < 2 ^ 31
IsI32 (negsuc k) = k < 2 ^ 31

recoded : ℤ → ℤ
recoded z =
    to_signed f64 32
      (mul f64 (mul f64 (of_ℤ f64 z) (literal f64 1 10000000)) (literal f64 10000000 1))

-- The float that is cut, for a sign and a magnitude.
recoded_steps :
    (s : Bool) (n : ℕ)
    → n ≤ 2 ^ 31
    → (k : ℕ) × (mul f64
          (mul f64 (fin s (n * 2 ^ 1074)) (literal f64 1 10000000))
          (literal f64 10000000 1)
        ≡ fin (xor (xor s false) false) k)
      × ((k / 2 ^ 1074 ≡ n) ⊎ (k / 2 ^ 1074 ≡ n - 1))
recoded_steps s n small =
    let (m, e, near) = decoded-IsNear s n small in
    let (k, w, near') = encoded-IsNear (xor s false) n m small near in
    (k, rw literal-unit (rw e (rw literal-scale w)), cut n m k small near near')

recoded_cases : (z : ℤ) → IsI32 z → (recoded z ≡ z) ⊎ (recoded z ≡ toward_zero z)
unfolding recoded of_ℤ to_signed
recoded_cases (pos n) small =
    let (k, e, c) = recoded_steps false n (omega (arith, small)) in
    rw (round-integer false n (omega (arith, small)))
      (rw e (elim c [ inl q ↦ inl (rw q (ground arith)) | inr q ↦ inr (rw q (ground arith)) ]))
recoded_cases (negsuc j) small =
    let (k, e, c) = recoded_steps true (suc j) (omega (arith, small)) in
    rw (round-integer true (suc j) (omega (arith, small))) (
      rw e (elim c [
        | inl q ↦ inl (rw q (ground arith))
        | inr q ↦ let t : k / 2 ^ 1074 ≡ j = omega (arith, q) in inr (rw t (ground arith))
      ]))

-- A latitude that is decoded and encoded again is the same or one unit of 1e-7 degrees closer to 0.
pub encode_latitude-decode_latitude :
    (m : LocationMessage)
    → IsI32 m.latitude
    → (encode_latitude (decode_latitude m) ≡ m.latitude)
      ⊎ (encode_latitude (decode_latitude m) ≡ toward_zero m.latitude)
unfolding encode_latitude decode_latitude recoded
encode_latitude-decode_latitude m small = recoded_cases m.latitude small

pub encode_longitude-decode_longitude :
    (m : LocationMessage)
    → IsI32 m.longitude
    → (encode_longitude (decode_longitude m) ≡ m.longitude)
      ⊎ (encode_longitude (decode_longitude m) ≡ toward_zero m.longitude)
unfolding encode_longitude decode_longitude recoded
encode_longitude-decode_longitude m small = recoded_cases m.longitude small
