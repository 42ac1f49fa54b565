-- ===== src/Msg/Adsb/Velocity.antt =====
-- The ground velocity of an ADS-B packet: decode_speed_direction of server/src/msg/adsb.rs.
use svc_telemetry.Base.{
  ℕ, zero, suc, ◌+◌, ◌-◌, ◌*◌, ◌%◌, ◌^◌, ◌≤◌, ◌<◌, ◌≡◌, refl, ap, ◌⊎◌, inl, inr, ◌↔◌, arith,
  if◌then◌else◌, ◌==◌, ok, err,
}
use svc_telemetry.Base.Int.{pos, negsuc, mul_i32, neg_i32, sub_ℕ, i32_of_bits}
use svc_telemetry.Float.{Float, f32, literal, mul, sqrt, of_ℕ, of_ℤ}
use svc_telemetry.Msg.Adsb.{
  Libm, Sign, positive, negative, DecodeError, unsupported_subtype, invalid_subtype, component,
  velocity, speed_square, speed_mps, direction_degrees, decode_speed_direction,
}

-- A square wraps to the square of the magnitude.
square_wraps : (b k : ℕ) → b + k ≡ 2 ^ 32 → b * b % 2 ^ 32 ≡ k * k % 2 ^ 32
square_wraps b k h = omega (arith, ap (λ (t : ℕ). t * b) h, ap (λ (t : ℕ). t * k) h)

square-lt : (k : ℕ) → k < 4096 → k * k < 2 ^ 24
square-lt k h = grind arith

i32_small : (w r : ℕ) → w % 2 ^ 32 ≡ r → r < 2 ^ 31 → i32_of_bits w ≡ pos r
i32_small w r e h = rw e (ground arith)

square_pos : (k : ℕ) → k < 4096 → mul_i32 (pos k) (pos k) ≡ pos (k * k)
square_pos k h =
    let e : k % 2 ^ 32 ≡ k = omega arith in
    rw e (i32_small (k * k) (k * k) (omega (arith, square-lt k h)) (omega (arith, square-lt k h)))

square_negsuc : (k : ℕ) → suc k < 4096 → mul_i32 (negsuc k) (negsuc k) ≡ pos (suc k * suc k)
square_negsuc k h =
    let b = 2 ^ 32 - 1 - k % 2 ^ 32 in
    let small = square-lt (suc k) h in
    i32_small (b * b) (suc k * suc k) (omega (arith, square_wraps b (suc k) (omega arith), small))
      (omega (arith, small))

-- The magnitude of a component: the field less one, times the scale.
abbrev pub magnitude : ℕ → ℕ → ℕ
magnitude scale v = scale * (v - 1)

-- The two scales of decode_speed_direction, and a velocity field of ten bits that is not 0.
abbrev pub IsField : ℕ → ℕ → Type 0
IsField scale v = (1 ≤ scale) × (scale ≤ 4) × (1 ≤ v) × (v < 1024)

magnitude-lt : (scale v : ℕ) → IsField scale v → magnitude scale v < 4096
magnitude-lt scale v f = grind arith

component-positive :
    (scale v : ℕ) → IsField scale v → component scale positive v ≡ pos (magnitude scale v)
unfolding component
component-positive scale v f =
    let less : sub_ℕ v 1 ≡ pos (v - 1) = ground arith in
    let e : scale % 2 ^ 32 ≡ scale = omega arith in
    let d : (v - 1) % 2 ^ 32 ≡ v - 1 = omega arith in
    rw less (
      rw e (
        rw d (
          i32_small (scale * (v - 1)) (scale * (v - 1)) (omega (arith, magnitude-lt scale v f))
            (omega (arith, magnitude-lt scale v f)))))

component-negative :
    (scale v : ℕ) → IsField scale v → component scale negative v ≡ neg_i32 (pos (magnitude scale v))
unfolding component
component-negative scale v f = ap neg_i32 (component-positive scale v f)

square_neg : (k : ℕ) → k < 4096 → mul_i32 (neg_i32 (pos k)) (neg_i32 (pos k)) ≡ pos (k * k)
square_neg zero h = refl
square_neg (suc k) h =
    let e : neg_i32 (pos (suc k)) ≡ negsuc k = ground arith in rw e (square_negsuc k h)

-- Whatever its sign, a component has the square of its magnitude.
component_square :
    (scale v : ℕ) (s : Sign)
    → IsField scale v
    → mul_i32 (component scale s v) (component scale s v)
      ≡ pos (magnitude scale v * magnitude scale v)
component_square scale v positive f =
    rw (component-positive scale v f) (square_pos (magnitude scale v) (magnitude-lt scale v f))
component_square scale v negative f =
    rw (component-negative scale v f) (square_neg (magnitude scale v) (magnitude-lt scale v f))

squares-lt : (a b : ℕ) → a < 4096 → b < 4096 → a * a + b * b < 2 ^ 25
squares-lt a b p q = omega (arith, square-lt a p, square-lt b q)

speed_square_lem :
    (scale a b : ℕ) (s s' : Sign)
    → IsField scale a
    → IsField scale b
    → speed_square (component scale s a, component scale s' b)
      ≡ pos (magnitude scale a * magnitude scale a + magnitude scale b * magnitude scale b)
unfolding speed_square
speed_square_lem scale a b s s' f g =
    let x = magnitude scale a * magnitude scale a in
    let y = magnitude scale b * magnitude scale b in
    let l = square-lt _ (magnitude-lt scale a f) in
    let l' = square-lt _ (magnitude-lt scale b g) in
    let e : x % 2 ^ 32 ≡ x = omega (arith, l) in
    let e' : y % 2 ^ 32 ≡ y = omega (arith, l') in
    rw (component_square scale a s f) (
      rw (component_square scale b s' g)
        (rw e (rw e' (i32_small (x + y) (x + y) (omega (arith, l, l')) (omega (arith, l, l'))))))

-- The scale of a subtype with ground speed: subsonic or supersonic.
abbrev pub scale_of : ℕ → ℕ
scale_of st = if st == 1 then 1 else 4

-- The speed in knots, exact under the root, times 0.514444.
abbrev pub ground_speed : ℕ → ℕ → Float
ground_speed x y = mul f32 (sqrt f32 (of_ℕ f32 (x * x + y * y))) (literal f32 514444 1000000)

speed_mps_lem :
    (scale a b : ℕ) (s s' : Sign)
    → IsField scale a
    → IsField scale b
    → speed_mps (component scale s a, component scale s' b)
      ≡ ground_speed (magnitude scale a) (magnitude scale b)
unfolding speed_mps of_ℤ of_ℕ
speed_mps_lem scale a b s s' f g = rw (speed_square_lem scale a b s s' f g)

-- On subtypes 1 and 2 and velocity fields from 1 to 1023 decode_speed_direction succeeds: the speed is
-- that of the exact sum of the squares, with no overflow, whatever the two signs are.
pub decode_speed_direction-speed :
    (lib : Libm) (st a b : ℕ) (s s' : Sign)
    → (st ≡ 1) ⊎ (st ≡ 2)
    → (1 ≤ a) × (a < 1024)
    → (1 ≤ b) × (b < 1024)
    → (d : Float) × (decode_speed_direction lib st s a s' b
        ≡ ok (ground_speed (magnitude (scale_of st) a) (magnitude (scale_of st) b), d))
unfolding decode_speed_direction velocity
decode_speed_direction-speed lib st a b s s' (inl e) f g = (
  direction_degrees lib (component 1 s a, component 1 s' b),
  rw e (rw (speed_mps_lem 1 a b s s' (omega arith) (omega arith))),
)
decode_speed_direction-speed lib st a b s s' (inr e) f g = (
  direction_degrees lib (component 4 s a, component 4 s' b),
  rw e (rw (speed_mps_lem 4 a b s s' (omega arith) (omega arith))),
)

-- decode_speed_direction fails exactly on the subtypes 3 and 4, as unsupported, and on every subtype
-- outside 1 to 4, as invalid.
pub decode_speed_direction-eq-err :
    (lib : Libm) (st a b : ℕ) (s s' : Sign) (e : DecodeError)
    → (decode_speed_direction lib st s a s' b ≡ err e) ↔ (
        ((st ≡ 3) ⊎ (st ≡ 4)) × (e ≡ unsupported_subtype)
        ⊎ ((st ≡ 0) ⊎ (5 ≤ st)) × (e ≡ invalid_subtype))
unfolding decode_speed_direction velocity
decode_speed_direction-eq-err lib st a b s s' e = ground arith
