-- ===== src/Msg/Adsb/Altitude.antt =====
-- The 12-bit altitude of an ADS-B packet: decode_altitude and encode_altitude of
-- server/src/msg/adsb.rs.
use Prim.Native.Nat.{bit_and}
use svc_telemetry.Base.{
  ℕ, ◌+◌, ◌-◌, ◌*◌, ◌/◌, ◌%◌, ◌^◌, ◌≤◌, ◌<◌, ◌≡◌, refl, ap, ◌⊎◌, arith, Bool, true, ◌&&◌,
  if◌then◌else◌, ltb, ◌==◌, every_below, every_below-true,
}
use svc_telemetry.Float.{Float, f32, literal, mul, div, of_ℕ, to_unsigned}
use svc_telemetry.Msg.Adsb.{
  altitude_steps, altitude_feet, decode_altitude, altitude_word, encode_feet, encode_altitude,
}

word_ok : ℕ → Bool
unfolding altitude_word altitude_steps
word_ok n = (altitude_steps (altitude_word n) == n) && ltb 0 (bit_and 0x010 (altitude_word n))

word_table : every_below 2048 word_ok ≡ true
unfolding every_below word_ok
word_table = refl

both : (a b : ℕ) (q : Bool) → ((a == b) && q) ≡ true → (a ≡ b) × (q ≡ true)
both a b q e = ground arith

-- decode reads back the steps that encode wrote, with the Q-bit set.
word_fields :
    (n : ℕ)
    → n < 2048
    → (altitude_steps (altitude_word n) ≡ n) × (ltb 0 (bit_and 0x010 (altitude_word n)) ≡ true)
word_fields n h = both _ n _ (unfold word_ok in every_below-true word_ok 2048 n h word_table)

feet-word : (n : ℕ) → n < 2048 → 40 ≤ n → altitude_feet (altitude_word n) + 1000 ≡ 25 * n
unfolding altitude_feet
feet-word n h h' = let (s, q) = word_fields n h in rw s (rw q (omega arith))

-- encode_altitude and decode_altitude in feet: what comes back is cut to multiples of 25.
altitude_feet-encode_feet :
    (feet : ℕ) → feet < 50200 → altitude_feet (encode_feet feet) + feet % 25 ≡ feet
unfolding encode_feet
altitude_feet-encode_feet feet h =
    omega (arith, feet-word ((feet + 1000) % 2 ^ 16 / 25) (omega arith) (omega arith))

-- An altitude whose whole feet, from 0 on, are below 50200 comes back as 0.3048 m times those feet, cut
-- to a multiple of 25.
pub decode_altitude-encode_altitude :
    (x : Float) (feet : ℕ)
    → to_unsigned f32 16 (div f32 x (literal f32 3048 10000)) ≡ feet
    → feet < 50200
    → decode_altitude (encode_altitude x)
      ≡ mul f32 (literal f32 3048 10000) (of_ℕ f32 (feet - feet % 25))
unfolding decode_altitude encode_altitude
decode_altitude-encode_altitude x feet e h = rw e (
    ap (λ (n : ℕ). mul f32 (literal f32 3048 10000) (of_ℕ f32 n))
      (omega (arith, altitude_feet-encode_feet feet h)))

-- The size in feet of a step of an altitude word.
abbrev pub step_feet : ℕ → ℕ
step_feet a = if ltb 0 (bit_and 0x010 a) then 25 else 100

steps_table : every_below 4096 (λ a. ltb (altitude_steps a) 2048) ≡ true
unfolding every_below altitude_steps
steps_table = refl

-- A 12-bit altitude word of 1000 feet or more in steps decodes to those feet less 1000. Any other
-- word, which stands for an altitude below zero, wraps to more than four thousand million feet.
pub altitude_feet_wraps :
    (a : ℕ)
    → a < 4096
    → ((altitude_feet a + 1000 ≡ altitude_steps a * step_feet a) × (altitude_feet a < 2 ^ 18))
      ⊎ ((altitude_steps a * step_feet a < 1000) × (4_294_966_296 ≤ altitude_feet a))
unfolding altitude_feet
altitude_feet_wraps a h =
    ground (arith, every_below-true (λ a. ltb (altitude_steps a) 2048) 4096 a h steps_table)
