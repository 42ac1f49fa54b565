-- ===== src/Msg/Netrid/Timestamp.antt =====
-- The timestamp of the location message: decode_timestamp and encode_timestamp of
-- server/src/msg/netrid.rs, which carry the tenths of a second since the last full hour.
use svc_telemetry.Base.{
  ℕ, ◌+◌, ◌-◌, ◌*◌, ◌/◌, ◌%◌, ◌≤◌, ◌<◌, ◌≡◌, ltb, if◌then◌else◌, arith, ok, lt→ltb, ge→ltb,
  Bool-cases, inl, inr,
}
use svc_telemetry.Msg.Netrid.{
  LocationMessage, LocationDecodeError, LocationEncodeError, decode_timestamp, encode_timestamp,
  current_hour,
}
use svc_telemetry.Msg.Netrid.Clock.{Chrono, IsClock, tenths_u16, tenth, hour}
use native.Mathlib.Decide.{dec_lt}

-- The message with another timestamp.
abbrev pub with_timestamp : LocationMessage → ℕ → LocationMessage
with_timestamp m n = record m { timestamp = n }

-- The tenths of a second since the last full hour, at `n` nanoseconds.
abbrev pub tenths_of : ℕ → ℕ
tenths_of n = n % hour / tenth

-- Counting back from `now`: the tenths belong to the hour before exactly if they lie ahead.
same_tenth :
    (now t u : ℕ)
    → hour ≤ now
    → t ≤ now
    → now + tenth ≤ t + hour
    → u + (if ltb (tenths_of now) (tenths_of t) then hour else 0)
      ≡ now - now % hour + tenths_of t * tenth
    → u + t % tenth ≡ t
same_tenth now t u hh h1 h2 e = elim (dec_lt (tenths_of now) (tenths_of t)) [
  | yes p ↦ omega (arith, rw (lt→ltb (tenths_of now) (tenths_of t) p) at e)
  | no p ↦ omega (arith, rw (ge→ltb (tenths_of now) (tenths_of t) (omega arith)) at e)
]

module _ (c : Chrono) (k : IsClock c) where
  open k use {nanos}

  -- Setting minute, second and nanosecond to 0 gives the last full hour.
  current_hour_lem :
      {E : Type 0} (e : E) (t : c.DateTime)
      → (h : c.DateTime) × (current_hour c e t ≡ ok h) × (nanos h + nanos t % hour ≡ nanos t)
  unfolding current_hour
  current_hour_lem e t =
      let (u, pu, qu) = k.with_minute-zero t in
      let (v, pv, qv) = k.with_second-zero u in
      let (h, ph, qh) = k.with_nanosecond-zero v in (h, rw pu (rw pv (rw ph)), omega arith)

  tenths_lem :
      (t h : c.DateTime)
      → nanos h + nanos t % hour ≡ nanos t
      → tenths_u16 (c.num_milliseconds (c.since t h)) ≡ tenths_of (nanos t)
  tenths_lem t h e = rw (k.num_milliseconds-since t h (omega arith)) (omega arith)

  encode_timestamp_lem : (t : c.DateTime) → encode_timestamp c t ≡ ok (tenths_of (nanos t))
  unfolding encode_timestamp
  encode_timestamp_lem t =
      let (h, p, q) = current_hour_lem LocationEncodeError.unknown_timestamp t in
      rw p (rw (tenths_lem t h q))

  decode_timestamp_lem :
      (m : LocationMessage) (now : c.DateTime) (n : ℕ)
      → n < 36000
      → hour ≤ nanos now
      → (u : c.DateTime) × (decode_timestamp c now (with_timestamp m n) ≡ ok u)
        × (nanos u + (if ltb (tenths_of (nanos now)) n then hour else 0)
            ≡ nanos now - nanos now % hour + n * tenth)
  unfolding decode_timestamp
  decode_timestamp_lem m now n hn hh =
      let (h, p, q) = current_hour_lem LocationDecodeError.unknown_timestamp now in
      let (e, pe, qe) = k.try_milliseconds_lem (n * 100) (omega arith) in
      let (d, pd, qd) = k.try_hours-one in
      elim (Bool-cases (ltb (tenths_of (nanos now)) n)) [
        | inl b ↦ (
          c.plus (c.minus h d) e,
          rw p (rw pe (rw pd (rw (tenths_lem now h q) (rw b)))),
          rw b (omega (arith, qe (c.minus h d), qd h)),
        )
        | inr b ↦ (
          c.plus h e,
          rw p (rw pe (rw pd (rw (tenths_lem now h q) (rw b)))),
          rw b (omega (arith, qe h)),
        )
      ]

  -- With a documented clock, and `now` an hour or more after the start of 1970: a time that is not after
  -- `now`, and less than an hour before it by a tenth of a second at least, goes through
  -- encode_timestamp and decode_timestamp, cut to whole tenths of a second.
  pub decode_timestamp-encode_timestamp :
      (m : LocationMessage) (now t : c.DateTime)
      → hour ≤ nanos now
      → nanos t ≤ nanos now
      → nanos now + tenth ≤ nanos t + hour
      → (n : ℕ) × (u : c.DateTime) × (encode_timestamp c t ≡ ok n)
        × (decode_timestamp c now (with_timestamp m n) ≡ ok u)
        × (nanos u + nanos t % tenth ≡ nanos t)
  decode_timestamp-encode_timestamp m now t hh h1 h2 =
      let (u, p, q) = decode_timestamp_lem m now (tenths_of (nanos t)) (omega arith) hh in
      (
        tenths_of (nanos t),
        u,
        encode_timestamp_lem t,
        p,
        same_tenth (nanos now) (nanos t) (nanos u) hh h1 h2 q,
      )
