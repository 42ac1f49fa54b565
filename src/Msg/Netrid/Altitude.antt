-- ===== src/Msg/Netrid/Altitude.antt =====
-- The pressure altitude of the location message: decode_altitude and encode_altitude of
-- server/src/msg/netrid.rs, in half metres above -1000 m.
use svc_telemetry.Base.{
  ℕ, ◌-◌, ◌*◌, ◌^◌, ◌<◌, ◌≡◌, refl, sym, ◌∙◌, true, false, arith, ok, err, ltb, ◌==◌, if◌then◌else◌,
}
use svc_telemetry.Float.{
  Float, fin, f32, literal, add, sub, negate, feq, to_unsigned, round, excess, half_even,
}
use svc_telemetry.Float.Exact.{
  of_ℕ-exact, mul-exact, add-exact, add-exact_pos, add-exact_neg, add-exact_back,
}
use svc_telemetry.Msg.Netrid.{
  LocationMessage, LocationDecodeError, decode_altitude, encode_altitude,
}
use native.Mathlib.Decide.{dec_lt, ℕ_discrete}

-- (n - 2000) / 2 as an f32.
abbrev pub half_metres : ℕ → Float
half_metres n =
    if ltb n 2000 then fin true ((2000 - n) * 2 ^ 148) else fin false ((n - 2000) * 2 ^ 148)

pub literal_half : literal f32 1 2 ≡ fin false (2 ^ 148)
unfolding literal round excess half_even
literal_half = refl

literal_thousand : literal f32 1000 1 ≡ fin false (2000 * 2 ^ 148)
unfolding literal round excess half_even
literal_thousand = refl

pub literal_two : literal f32 2 1 ≡ fin false (2 ^ 150)
unfolding literal round excess half_even
literal_two = refl

below_sea :
    (n : ℕ)
    → n < 65536
    → add f32 (fin false (n * 2 ^ 148)) (fin true (2000 * 2 ^ 148)) ≡ half_metres n
below_sea n h = elim (dec_lt n 2000) [
  | yes p ↦
      rw
        (add-exact_neg (n * 2 ^ 148) (2000 * 2 ^ 148) (2000 - n) 148 (omega arith) (omega arith)
          (omega arith) (omega arith))
        (ground arith)
  | no p ↦ elim (ℕ_discrete n 2000) [
    | yes e ↦ rw e (unfold add in refl)
    | no q ↦
        rw
          (add-exact_pos (n * 2 ^ 148) (2000 * 2 ^ 148) (n - 2000) 148 (omega arith) (omega arith)
            (omega arith) (omega arith))
          (ground arith)
  ]
]

feq-bottom : (n : ℕ) → feq (half_metres n) (fin true (2000 * 2 ^ 148)) ≡ (n == 0)
unfolding feq
feq-bottom n = ground arith

-- decode_altitude on every u16: 0 is unknown, and any other reading is exact in half metres.
pub decode_altitude-half_metres :
    (m : LocationMessage)
    → m.pressure_altitude < 65536
    → decode_altitude m ≡ (
        if m.pressure_altitude == 0
        then err LocationDecodeError.unknown_altitude
        else ok (half_metres m.pressure_altitude))
unfolding decode_altitude sub negate
decode_altitude-half_metres m h =
    let n = m.pressure_altitude in
    rw (
      of_ℕ-exact n (omega arith),
      literal_half,
      literal_thousand,
      mul-exact false false (n * 2 ^ 149) (2 ^ 148) n 148 (omega arith) (omega arith) (omega arith),
      below_sea n h,
      feq-bottom n,
    )

back :
    (n : ℕ)
    → 0 < n
    → n < 65536
    → add f32 (half_metres n) (fin false (2000 * 2 ^ 148)) ≡ fin false (n * 2 ^ 148)
back n hp h = elim (dec_lt n 2000) [
  | yes p ↦ ground (
    arith,
    add-exact_back ((2000 - n) * 2 ^ 148) (2000 * 2 ^ 148) n 148 (omega arith) (omega arith)
        (omega arith) (omega arith),
  )
  | no p ↦ ground (
    arith,
    add-exact ((n - 2000) * 2 ^ 148) (2000 * 2 ^ 148) n 148 (omega arith) (omega arith)
        (omega arith),
  )
]

encode-half_metres : (n : ℕ) → 0 < n → n < 65536 → encode_altitude (half_metres n) ≡ n
unfolding encode_altitude to_unsigned
encode-half_metres n hp h =
    rw
      (
        literal_thousand,
        literal_two,
        back n hp h,
        mul-exact false false (n * 2 ^ 148) (2 ^ 150) n 149 (omega arith) (omega arith)
            (omega arith),
      )
      (ground arith)

-- An altitude that decode_altitude reads from a u16 is encoded as that u16.
pub encode_altitude-decode_altitude :
    (m : LocationMessage) (v : Float)
    → m.pressure_altitude < 65536
    → decode_altitude m ≡ ok v
    → encode_altitude v ≡ m.pressure_altitude
encode_altitude-decode_altitude m v h e =
    go m.pressure_altitude h (sym (decode_altitude-half_metres m h) ∙ e)
  where
    go :
        (n : ℕ)
        → n < 65536
        → (if n == 0 then err LocationDecodeError.unknown_altitude else ok (half_metres n)) ≡ ok v
        → encode_altitude v ≡ n
    go n hn p = ground (arith, encode-half_metres n)
