-- ===== src/Msg/Netrid/VerticalSpeed.antt =====
-- The vertical speed of the location message: decode_vertical_speed and encode_vertical_speed of
-- server/src/msg/netrid.rs, in half metres per second.
use svc_telemetry.Base.{
  suc, ◌*◌, ◌^◌, ◌<◌, ◌≡◌, refl, sym, ◌∙◌, true, false, arith, Result, ok, err, leb, ◌==◌,
  if◌then◌else◌,
}
use svc_telemetry.Base.Int.{ℤ, pos, negsuc}
use svc_telemetry.Float.{
  Float, fin, f32, literal, negate, mul, of_ℤ, feq, le, lt, to_signed, round, excess, half_even,
}
use svc_telemetry.Float.Exact.{f32-exact, mul-exact}
use svc_telemetry.Msg.Netrid.{
  LocationMessage, LocationDecodeError, decode_vertical_speed, encode_vertical_speed,
}
use svc_telemetry.Msg.Netrid.Altitude.{literal_half, literal_two}

-- z / 2 as an f32.
abbrev pub halves : ℤ → Float
halves (pos n) = fin false (n * 2 ^ 148)
halves (negsuc n) = fin true (suc n * 2 ^ 148)

-- An i8.
abbrev pub IsI8 : ℤ → Type 0
IsI8 (pos n) = n < 128
IsI8 (negsuc n) = n < 128

-- To -124 .. 124.
abbrev pub clamp_halves : ℤ → ℤ
clamp_halves (pos n) = if leb 124 n then pos 124 else pos n
clamp_halves (negsuc n) = if leb 123 n then negsuc 123 else negsuc n

literal_top : literal f32 62 1 ≡ fin false (124 * 2 ^ 148)
unfolding literal round excess half_even
literal_top = refl

literal_invalid : literal f32 63 1 ≡ fin false (126 * 2 ^ 148)
unfolding literal round excess half_even
literal_invalid = refl

scaled_vertical : (z : ℤ) → IsI8 z → mul f32 (of_ℤ f32 z) (fin false (2 ^ 148)) ≡ halves z
unfolding of_ℤ
scaled_vertical (pos n) h =
    rw
      (f32-exact false n 149 (n * 2 ^ 149) 1 (omega arith) (omega arith) (omega arith)
        (omega arith))
      (mul-exact false false (n * 2 ^ 149) (2 ^ 148) n 148 (omega arith) (omega arith)
        (omega arith))
scaled_vertical (negsuc n) h =
    rw
      (f32-exact true (suc n) 149 (suc n * 2 ^ 149) 1 (omega arith) (omega arith) (omega arith)
        (omega arith))
      (mul-exact true false (suc n * 2 ^ 149) (2 ^ 148) (suc n) 148 (omega arith) (omega arith)
        (omega arith))

abbrev pub vertical_reading : ℤ → Result LocationDecodeError Float
vertical_reading (pos n) =
    if n == 126 then err LocationDecodeError.unknown_speed else ok (halves (clamp_halves (pos n)))
vertical_reading (negsuc n) = ok (halves (clamp_halves (negsuc n)))

clamped :
    (z : ℤ)
    → (if feq (halves z) (fin false (126 * 2 ^ 148))
        then err LocationDecodeError.unknown_speed
        else ok (
            if le (fin false (124 * 2 ^ 148)) (halves z)
            then fin false (124 * 2 ^ 148)
            else if le (halves z) (fin true (124 * 2 ^ 148))
            then fin true (124 * 2 ^ 148)
            else halves z))
      ≡ vertical_reading z
unfolding le feq lt
clamped (pos n) = ground arith
clamped (negsuc n) = ground arith

-- decode_vertical_speed on every i8: 126 is unknown, and any other reading is exact in half metres
-- per second, limited to 62 m/s up or down.
pub decode_vertical_speed-reading :
    (m : LocationMessage)
    → IsI8 m.vertical_speed
    → decode_vertical_speed m ≡ vertical_reading m.vertical_speed
unfolding decode_vertical_speed negate
decode_vertical_speed-reading m h =
    rw (literal_half, literal_top, literal_invalid, scaled_vertical m.vertical_speed h)
      (clamped m.vertical_speed)

encode-halves : (z : ℤ) → IsI8 z → encode_vertical_speed (halves z) ≡ z
unfolding encode_vertical_speed to_signed
encode-halves (pos n) h =
    rw
      (
        literal_two,
        mul-exact false false (n * 2 ^ 148) (2 ^ 150) n 149 (omega arith) (omega arith)
            (omega arith),
      )
      (ground arith)
encode-halves (negsuc n) h =
    rw
      (
        literal_two,
        mul-exact true false (suc n * 2 ^ 148) (2 ^ 150) (suc n) 149 (omega arith) (omega arith)
            (omega arith),
      )
      (ground arith)

encode_reading :
    (z : ℤ) (v : Float)
    → IsI8 z
    → vertical_reading z ≡ ok v
    → encode_vertical_speed v ≡ clamp_halves z
encode_reading (pos n) v h e = ground (arith, encode-halves (clamp_halves (pos n)))
encode_reading (negsuc n) v h e = ground (arith, encode-halves (clamp_halves (negsuc n)))

-- A vertical speed that decode_vertical_speed reads from an i8 is encoded as that i8, limited to
-- -124 .. 124.
pub encode_vertical_speed-decode_vertical_speed :
    (m : LocationMessage) (v : Float)
    → IsI8 m.vertical_speed
    → decode_vertical_speed m ≡ ok v
    → encode_vertical_speed v ≡ clamp_halves m.vertical_speed
encode_vertical_speed-decode_vertical_speed m v h e =
    encode_reading m.vertical_speed v h (sym (decode_vertical_speed-reading m h) ∙ e)
