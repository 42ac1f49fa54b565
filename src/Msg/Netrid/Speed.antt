-- ===== src/Msg/Netrid/Speed.antt =====
-- The speed fields of the location message: decode_speed and encode_speed of
-- server/src/msg/netrid.rs against a reading in quarters of a metre per second.
use svc_telemetry.Base.{
  ℕ, ◌+◌, ◌*◌, ◌^◌, ◌<◌, ◌≡◌, refl, false, arith, ◌==◌, if◌then◌else◌, ok, err,
}
use svc_telemetry.Float.{
  Float, fin, f32, literal, feq, le, lt, sub, to_unsigned, round, excess, half_even,
}
use svc_telemetry.Float.Exact.{of_ℕ-exact, mul-exact, add-exact, add-exact_pos, div-exact}
use svc_telemetry.Msg.Netrid.{
  LocationMessage, LocationDecodeError, decode_speed, encode_speed, scaled_speed,
  high_speed_addition,
}
use svc_telemetry.Msg.Netrid.Fields.{SpeedMultiplier}

-- n / 4 as an f32.
abbrev pub quarters : ℕ → Float
quarters n = fin false (n * 2 ^ 147)

literal_quarter : literal f32 25 100 ≡ quarters 1
unfolding literal round excess half_even
literal_quarter = refl

pub literal_three_quarters : literal f32 75 100 ≡ quarters 3
unfolding literal round excess half_even
literal_three_quarters = refl

pub literal_threshold : high_speed_addition ≡ quarters 255
unfolding high_speed_addition literal round excess half_even
literal_threshold = refl

scaled_low : (n : ℕ) → n < 256 → scaled_speed SpeedMultiplier.x0_25 n ≡ quarters n
unfolding scaled_speed
scaled_low n h =
    rw (of_ℕ-exact n (omega arith), literal_quarter)
      (mul-exact false false (n * 2 ^ 149) (1 * 2 ^ 147) n 147 (omega arith) (omega arith)
        (omega arith))

scaled_high : (n : ℕ) → n < 256 → scaled_speed SpeedMultiplier.x0_75 n ≡ quarters (3 * n + 255)
unfolding scaled_speed
scaled_high n h =
    rw (of_ℕ-exact n (omega arith), literal_three_quarters, literal_threshold)
      (rw
        (mul-exact false false (n * 2 ^ 149) (3 * 2 ^ 147) (3 * n) 147 (omega arith) (omega arith)
          (omega arith))
        (add-exact (3 * n * 2 ^ 147) (255 * 2 ^ 147) (3 * n + 255) 147 (omega arith) (omega arith)
          (omega arith)))

-- The speed of a multiplier and a byte, in quarters of a metre per second.
abbrev pub speed_quarters : SpeedMultiplier → ℕ → ℕ
speed_quarters SpeedMultiplier.x0_25 n = n
speed_quarters SpeedMultiplier.x0_75 n = 3 * n + 255

scaled_lem :
    (k : SpeedMultiplier) (n : ℕ) → n < 256 → scaled_speed k n ≡ quarters (speed_quarters k n)
scaled_lem SpeedMultiplier.x0_25 n h = scaled_low n h
scaled_lem SpeedMultiplier.x0_75 n h = scaled_high n h

literal_unknown : literal f32 255 1 ≡ quarters 1020
unfolding literal round excess half_even
literal_unknown = refl

pub literal_most : literal f32 25425 100 ≡ quarters 1017
unfolding literal round excess half_even
literal_most = refl

feq-quarters : (a b : ℕ) → feq (quarters a) (quarters b) ≡ (a == b)
unfolding feq
feq-quarters a b = ground arith

-- decode_speed on every byte: the two values above the scale are errors, and any other reading is
-- exact in quarters of a metre per second.
pub decode_speed-quarters :
    (m : LocationMessage)
    → m.speed < 256
    → decode_speed m ≡ (
        let q = speed_quarters m.speed_multiplier m.speed in
        if q == 1020
        then err LocationDecodeError.unknown_speed
        else if q == 1017
        then err LocationDecodeError.speed_gte254_25
        else ok (quarters q))
unfolding decode_speed
decode_speed-quarters m h =
    let q = speed_quarters m.speed_multiplier m.speed in
    rw (
      scaled_lem m.speed_multiplier m.speed h,
      literal_unknown,
      literal_most,
      feq-quarters q 1020,
      feq-quarters q 1017,
    )

pub literal_zero : literal f32 0 1 ≡ quarters 0
unfolding literal round excess half_even
literal_zero = refl

pub literal_four : literal f32 4 1 ≡ quarters 16
unfolding literal round excess half_even
literal_four = refl

-- What encode_speed answers on the speeds that decode_speed can produce.
pub encode_low : (q : ℕ) → q < 256 → encode_speed (quarters q) ≡ ok (SpeedMultiplier.x0_25, q)
unfolding encode_speed le lt feq to_unsigned
encode_low q h =
    rw
      (
        literal_zero,
        literal_threshold,
        literal_four,
        mul-exact false false (q * 2 ^ 147) (16 * 2 ^ 147) q 149 (omega arith) (omega arith)
            (omega arith),
      )
      (ground arith)

pub encode_high :
    (n : ℕ)
    → 0 < n
    → n < 254
    → encode_speed (quarters (3 * n + 255)) ≡ ok (SpeedMultiplier.x0_75, n)
unfolding encode_speed le lt feq to_unsigned sub
encode_high n hp h =
    rw
      (
        literal_zero,
        literal_threshold,
        literal_most,
        literal_three_quarters,
        add-exact_pos ((3 * n + 255) * 2 ^ 147) (255 * 2 ^ 147) (3 * n) 147 (omega arith)
            (omega arith) (omega arith) (omega arith),
        div-exact (3 * n * 2 ^ 147) (3 * 2 ^ 147) n 149 (omega arith) (omega arith) (omega arith)
            (omega arith),
      )
      (ground arith)
