-- ===== src/Msg/Netrid/Direction.antt =====
-- The track direction of the location message: decode_direction and encode_direction of
-- server/src/msg/netrid.rs.
use svc_telemetry.Base.{ℕ, ◌-◌, ◌≤◌, ◌<◌, ◌≡◌, refl, ◌↔◌, arith, ok, err}
use svc_telemetry.Msg.Netrid.{
  LocationMessage, LocationEncodeError, decode_direction, encode_direction, direction_of,
}
use native.Mathlib.Decide.{dec_lt}
use svc_telemetry.Msg.Netrid.Fields.{EastWestDirection}

-- The message with another direction.
abbrev pub with_direction : LocationMessage → EastWestDirection × ℕ → LocationMessage
with_direction m p = record m { ew_direction = p.0; track_direction = p.1 }

-- Every direction below 360 degrees is encoded in a byte below 180, and decodes to itself.
pub decode_direction-encode_direction :
    (m : LocationMessage) (d : ℕ)
    → d < 360
    → (p : EastWestDirection × ℕ) × (encode_direction d ≡ ok p)
      × (p.1 < 180)
      × (decode_direction (with_direction m p) ≡ d)
unfolding encode_direction decode_direction
decode_direction-encode_direction m d h = elim (dec_lt d 180) [
  | yes low ↦ ((EastWestDirection.east, d), ground arith, omega arith, refl)
  | no high ↦ ((EastWestDirection.west, d - 180), ground arith, omega arith, omega arith)
]

-- encode_direction fails exactly on 360 and above, with InvalidTrackAngle.
pub encode_direction-eq-err :
    (d : ℕ) (e : LocationEncodeError)
    → (encode_direction d ≡ err e) ↔ ((360 ≤ d) × (e ≡ LocationEncodeError.invalid_track_angle))
unfolding encode_direction
encode_direction-eq-err d e = ground arith

-- A direction read from a track byte below 180 is encoded as the half and the byte it came from.
pub encode_direction-decode_direction :
    (m : LocationMessage)
    → m.track_direction < 180
    → encode_direction (decode_direction m) ≡ ok (m.ew_direction, m.track_direction)
unfolding encode_direction decode_direction direction_of
encode_direction-decode_direction m h = ground arith
