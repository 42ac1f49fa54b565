-- ===== src/Msg/Netrid/SpeedCodec.antt =====
-- encode_speed and decode_speed of server/src/msg/netrid.rs together: what survives a round trip, and
-- what encode_speed makes of an arbitrary f32.
use svc_telemetry.Base.{
  ℕ, zero, suc, ◌≢◌, ◌+◌, ◌*◌, ◌/◌, ◌^◌, ◌<◌, ◌≤◌, ◌≡◌, sym, ap, ◌∙◌, ◌↔◌, true, false, arith, ◌==◌,
  if◌then◌else◌, ok, err,
}
use svc_telemetry.Float.{
  Float, nan, inf, fin, f32, literal, mul, div, sub, lt, le, feq, to_unsigned,
}
use svc_telemetry.Float.Exact.{mul-exact}
use svc_telemetry.Msg.Netrid.{
  LocationMessage, LocationDecodeError, LocationEncodeError, decode_speed, encode_speed,
  high_speed_addition,
}
use svc_telemetry.Msg.Netrid.Fields.{SpeedMultiplier}
use svc_telemetry.Msg.Netrid.Speed.{
  quarters, speed_quarters, decode_speed-quarters, encode_low, encode_high, literal_zero,
  literal_threshold, literal_four,
}
use native.Mathlib.Nat.{pow-suc}

-- The message with another speed.
abbrev pub with_speed : LocationMessage → SpeedMultiplier × ℕ → LocationMessage
with_speed m p = record m { speed_multiplier = p.0; speed = p.1 }

Reencodes : LocationMessage → Float → Type 0
Reencodes m v =
    (p : SpeedMultiplier × ℕ) × (encode_speed v ≡ ok p) × (decode_speed (with_speed m p) ≡ ok v)

low_again : (m : LocationMessage) (q : ℕ) → q < 256 → Reencodes m (quarters q)
unfolding Reencodes
low_again m q h = (
  (SpeedMultiplier.x0_25, q),
  encode_low q h,
  decode_speed-quarters (with_speed m (SpeedMultiplier.x0_25, q)) h ∙ ground arith,
)

high_again : (m : LocationMessage) (n : ℕ) → 0 < n → n < 254 → Reencodes m (quarters (3 * n + 255))
unfolding Reencodes
high_again m n hp h = (
  (SpeedMultiplier.x0_75, n),
  encode_high n hp h,
  decode_speed-quarters (with_speed m (SpeedMultiplier.x0_75, n)) (omega arith) ∙ ground arith,
)

reencode :
    (m : LocationMessage) (k : SpeedMultiplier) (n : ℕ)
    → n < 256
    → speed_quarters k n < 1017
    → Reencodes m (quarters (speed_quarters k n))
reencode m SpeedMultiplier.x0_25 n h hq = low_again m n h
reencode m SpeedMultiplier.x0_75 zero h hq = low_again m 255 (omega arith)
reencode m SpeedMultiplier.x0_75 (suc n) h hq = high_again m (suc n) (omega arith) (omega arith)

decoded_speed :
    (q : ℕ) {v : Float}
    → (if q == 1020
        then err LocationDecodeError.unknown_speed
        else if q == 1017
        then err LocationDecodeError.speed_gte254_25
        else ok (quarters q))
      ≡ ok v
    → (v ≡ quarters q) × (q ≢ 1020) × (q ≢ 1017)
decoded_speed q h = ground arith

speed_quarters-le :
    (k : SpeedMultiplier) (n : ℕ)
    → n < 256
    → speed_quarters k n ≢ 1020
    → speed_quarters k n ≢ 1017
    → speed_quarters k n < 1017
speed_quarters-le SpeedMultiplier.x0_25 n h p q = omega arith
speed_quarters-le SpeedMultiplier.x0_75 n h p q = omega arith

-- A speed that decode_speed reads from a byte is encoded by encode_speed, and the message with the
-- new multiplier and byte decodes to the same speed (63.75 m/s may change its multiplier).
pub decode_speed-encode_speed :
    (m : LocationMessage) (v : Float)
    → m.speed < 256
    → decode_speed m ≡ ok v
    → (p : SpeedMultiplier × ℕ) × (encode_speed v ≡ ok p) × (decode_speed (with_speed m p) ≡ ok v)
unfolding Reencodes
decode_speed-encode_speed m v h e =
    let (ev, p, q) = decoded_speed _ (sym (decode_speed-quarters m h) ∙ e) in
    rw ev (reencode m m.speed_multiplier m.speed h (speed_quarters-le _ m.speed h p q))

to_u8-lt : (x : Float) → to_unsigned f32 8 x < 256
unfolding to_unsigned
to_u8-lt nan = omega arith
to_u8-lt (inf true) = omega arith
to_u8-lt (inf false) = omega arith
to_u8-lt (fin true m) = omega arith
to_u8-lt (fin false m) = ground arith

-- encode_speed fails exactly on the speeds below zero, with NegativeGroundSpeed.
pub encode_speed-eq-err :
    (v : Float) (e : LocationEncodeError)
    → (encode_speed v ≡ err e)
      ↔ ((lt v (literal f32 0 1) ≡ true) × (e ≡ LocationEncodeError.negative_ground_speed))
unfolding encode_speed
encode_speed-eq-err v e = ground arith

-- The speed byte of a successful encode_speed fits a u8, on any f32.
pub encode_speed-lt :
    (v : Float) (k : SpeedMultiplier) (n : ℕ) → encode_speed v ≡ ok (k, n) → n < 256
unfolding encode_speed
encode_speed-lt v k n e = ground (
  arith,
  to_u8-lt (mul f32 v (literal f32 4 1)),
  to_u8-lt (div f32 (sub f32 v high_speed_addition) (literal f32 75 100)),
)

four_pow : (j : ℕ) → 2 ^ suc (suc j) ≡ 4 * 2 ^ j
four_pow j = rw (pow-suc 2 (suc j), pow-suc 2 j) (omega arith)

-- A speed from 0 to 63.75 m/s, as an f32, is encoded on the fine scale, and the byte is the number of
-- whole quarters of a metre per second in it.
pub encode_speed_fine :
    (a j : ℕ)
    → a < 2 ^ 24
    → a * 2 ^ j ≤ 255 * 2 ^ 147
    → (n : ℕ) × (encode_speed (fin false (a * 2 ^ j)) ≡ ok (SpeedMultiplier.x0_25, n))
      × (n * 2 ^ 147 ≤ a * 2 ^ j)
      × (a * 2 ^ j < (n + 1) * 2 ^ 147)
unfolding encode_speed le lt feq to_unsigned
encode_speed_fine a j ha h =
    let four = ap (λ (t : ℕ). a * t) (four_pow j) in
    (
      a * 2 ^ j / 2 ^ 147,
      rw
          (
            literal_zero,
            literal_threshold,
            literal_four,
            mul-exact false false (a * 2 ^ j) (16 * 2 ^ 147) a (suc (suc j)) (omega (arith, four))
                ha (omega (arith, four)),
          )
          (ground (arith, four)),
      omega arith,
      omega arith,
    )
