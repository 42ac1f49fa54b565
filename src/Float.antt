-- ===== src/Float.antt =====
-- The f32 and f64 arithmetic of Rust that the message codecs use: IEEE 754 binary32 and binary64 with
-- rounding to nearest, ties to even, and Rust's saturating `as` casts to integers.
-- A finite value is a sign and a count of the format's smallest positive number (2^-149 for f32,
-- 2^-1074 for f64), so the representation is unique and every operation runs.
pub mod Exact
pub mod Fixed
pub mod Near
pub mod Root
use svc_telemetry.Base.{
  ℕ, zero, suc, ◌+◌, ◌-◌, ◌*◌, ◌/◌, ◌%◌, ◌^◌, Bool, true, false, ◌&&◌, ◌||◌, not, xor, ltb, leb,
  ◌==◌, if◌then◌else◌,
}
use svc_telemetry.Base.Int.{ℤ, pos, negsuc, sub_ℕ}

pub record Format : Type 0 where
  -- Significant bits.
  pub precision : ℕ
  -- The smallest positive value is 2 ^ -grid.
  pub grid : ℕ
  -- A magnitude of 2 ^ top grid steps overflows.
  pub top : ℕ

abbrev pub f32 : Format
f32 = record { precision = 24; grid = 149; top = 277 }

abbrev pub f64 : Format
f64 = record { precision = 53; grid = 1074; top = 2098 }

-- `inf true` is -∞; `fin true m` is -m grid steps.
pub data Float : Type 0 where
  nan : Float
  inf : Bool → Float
  fin : Bool → ℕ → Float

-- Halvings until `q` is below `b`. No product or quotient of finite f64 has 4096 bits.
unfoldable pub excess : ℕ → ℕ → ℕ → ℕ
excess zero b q = 0
excess (suc fuel) b q = let rest = excess fuel b (q / 2) in if ltb q b then 0 else suc rest

-- n / d to the nearest integer, ties to even.
unfoldable pub half_even : ℕ → ℕ → ℕ
half_even n d =
    let q = n / d in
    let r = n % d in
    if ltb (2 * r) d then q else if ltb d (2 * r) then q + 1 else if q % 2 == 0 then q else q + 1

-- The float nearest to n / d grid steps.
unfoldable pub round : Format → Bool → ℕ → ℕ → Float
round t s n d =
    let unit = 2 ^ excess 4096 (2 ^ t.precision) (n / d) in
    let m = half_even n (d * unit) * unit in if ltb m (2 ^ t.top) then fin s m else inf s

-- A decimal literal n / d.
unfoldable pub literal : Format → ℕ → ℕ → Float
literal t n d = round t false (n * 2 ^ t.grid) d

unfoldable pub negate : Float → Float
negate nan = nan
negate (inf s) = inf (not s)
negate (fin s m) = fin (not s) m

add_fin : Format → Bool → Bool → ℕ → ℕ → Float
add_fin t s s' m n =
    if xor s s'
    then (if ltb n m
        then round t s (m - n) 1
        else if ltb m n
        then round t s' (n - m) 1
        else fin false 0)
    else round t s (m + n) 1

unfoldable pub add : Format → Float → Float → Float
unfolding add_fin
add t nan b = nan
add t (inf s) nan = nan
add t (inf s) (inf s') = if xor s s' then nan else inf s
add t (inf s) (fin s' n) = inf s
add t (fin s m) nan = nan
add t (fin s m) (inf s') = inf s'
add t (fin s m) (fin s' n) = add_fin t s s' m n

unfoldable pub sub : Format → Float → Float → Float
unfolding add negate
sub t a b = add t a (negate b)

unfoldable pub mul : Format → Float → Float → Float
mul t nan b = nan
mul t (inf s) nan = nan
mul t (inf s) (inf s') = inf (xor s s')
mul t (inf s) (fin s' n) = if n == 0 then nan else inf (xor s s')
mul t (fin s m) nan = nan
mul t (fin s m) (inf s') = if m == 0 then nan else inf (xor s s')
mul t (fin s m) (fin s' n) = round t (xor s s') (m * n) (2 ^ t.grid)

unfoldable pub div : Format → Float → Float → Float
div t nan b = nan
div t (inf s) nan = nan
div t (inf s) (inf s') = nan
div t (inf s) (fin s' n) = inf (xor s s')
div t (fin s m) nan = nan
div t (fin s m) (inf s') = fin (xor s s') 0
div t (fin s m) (fin s' n) =
    if n == 0
    then (if m == 0 then nan else inf (xor s s'))
    else round t (xor s s') (m * 2 ^ t.grid) n

-- Comparisons with a NaN are false; -0 equals +0.
lt_fin : Bool → Bool → ℕ → ℕ → Bool
lt_fin false false m n = ltb m n
lt_fin true true m n = ltb n m
lt_fin true false m n = ltb 0 (m + n)
lt_fin false true m n = false

unfoldable pub lt : Float → Float → Bool
unfolding lt_fin
lt nan b = false
lt (inf s) nan = false
lt (inf s) (inf s') = s && not s'
lt (inf s) (fin s' n) = s
lt (fin s m) nan = false
lt (fin s m) (inf s') = not s'
lt (fin s m) (fin s' n) = lt_fin s s' m n

unfoldable pub feq : Float → Float → Bool
feq nan b = false
feq (inf s) nan = false
feq (inf s) (inf s') = not (xor s s')
feq (inf s) (fin s' n) = false
feq (fin s m) nan = false
feq (fin s m) (inf s') = false
feq (fin s m) (fin s' n) = (m == n) && (m == 0 || not (xor s s'))

unfoldable pub le : Float → Float → Bool
unfolding lt feq
le a b = lt a b || feq a b

-- The integer below.
unfoldable pub floor : Format → Float → Float
floor t nan = nan
floor t (inf s) = inf s
floor t (fin false m) = fin false (m / 2 ^ t.grid * 2 ^ t.grid)
floor t (fin true m) = fin true ((m + (2 ^ t.grid - 1)) / 2 ^ t.grid * 2 ^ t.grid)

-- An unsigned integer as a float.
unfoldable pub of_ℕ : Format → ℕ → Float
of_ℕ t n = round t false (n * 2 ^ t.grid) 1

unfoldable pub of_ℤ : Format → ℤ → Float
of_ℤ t (pos n) = round t false (n * 2 ^ t.grid) 1
of_ℤ t (negsuc n) = round t true (suc n * 2 ^ t.grid) 1

-- `x as u8`, `as u16`, `as u32`: towards zero, saturating, NaN to 0.
unfoldable pub to_unsigned : Format → ℕ → Float → ℕ
to_unsigned t w nan = 0
to_unsigned t w (inf true) = 0
to_unsigned t w (inf false) = 2 ^ w - 1
to_unsigned t w (fin true m) = 0
to_unsigned t w (fin false m) = if ltb (m / 2 ^ t.grid) (2 ^ w) then m / 2 ^ t.grid else 2 ^ w - 1

-- `x as i8`, `as i32`.
unfoldable pub to_signed : Format → ℕ → Float → ℤ
to_signed t w nan = pos 0
to_signed t w (inf true) = negsuc (2 ^ (w - 1) - 1)
to_signed t w (inf false) = pos (2 ^ (w - 1) - 1)
to_signed t w (fin false m) =
    if ltb (m / 2 ^ t.grid) (2 ^ (w - 1)) then pos (m / 2 ^ t.grid) else pos (2 ^ (w - 1) - 1)
to_signed t w (fin true m) =
    if leb (m / 2 ^ t.grid) (2 ^ (w - 1))
    then sub_ℕ 0 (m / 2 ^ t.grid)
    else negsuc (2 ^ (w - 1) - 1)

-- `x as f64` of an f32 is exact.
unfoldable pub widen : Float → Float
widen nan = nan
widen (inf s) = inf s
widen (fin s m) = fin s (m * 2 ^ 925)

-- The integer square root, two bits a round.
pub isqrt : ℕ → ℕ → ℕ
isqrt zero n = 0
isqrt (suc fuel) n =
    let rest = isqrt fuel (n / 4) in
    if n == 0 then 0 else if leb ((2 * rest + 1) * (2 * rest + 1)) n then 2 * rest + 1 else 2 * rest

-- `x.sqrt()` is correctly rounded: a root of at least 2 ^ (grid / 2) steps has more bits than the
-- precision, and a last bit below the half tells an inexact root from an exact one.
unfoldable pub sqrt : Format → Float → Float
unfolding isqrt
sqrt t nan = nan
sqrt t (inf true) = nan
sqrt t (inf false) = inf false
sqrt t (fin true m) = if m == 0 then fin true 0 else nan
sqrt t (fin false m) =
    let n = m * 2 ^ t.grid in
    let r = isqrt 2048 n in round t false (if r * r == n then 2 * r else 2 * r + 1) 2
