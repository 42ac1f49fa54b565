-- ===== src/Float/Exact.antt =====
-- Where rounding does nothing: a value of at most `precision` significant bits is kept.
use svc_telemetry.Base.{
  ℕ, zero, suc, ◌+◌, ◌-◌, ◌*◌, ◌/◌, ◌^◌, ◌≤◌, ◌<◌, ◌≡◌, refl, ap, Bool, true, false, arith, lt→ltb,
  xor,
}
use svc_telemetry.Float.{Format, f32, fin, excess, half_even, round, of_ℕ, mul, add, div}
use native.Mathlib.Nat.{pow-suc, add-zero, add-suc, mul-div_cancel, mul-mod_left}

pow-add : (a b : ℕ) → 2 ^ (a + b) ≡ 2 ^ a * 2 ^ b
pow-add a zero = rw add-zero (omega arith)
pow-add a (suc b) =
    rw (add-suc, pow-suc 2 (a + b), pow-add a b)
      (omega (arith, ap (λ (t : ℕ). 2 ^ a * t) (pow-suc 2 b)))

pub pow-pos : (a : ℕ) → 0 < 2 ^ a
pow-pos zero = omega arith
pow-pos (suc a) = omega (arith, pow-suc 2 a, pow-pos a)

split_pow : (x j : ℕ) → x ≤ j → 2 ^ j ≡ 2 ^ (j - x) * 2 ^ x
split_pow x j h = rw (← pow-add (j - x) x) (ap (λ (p : ℕ). 2 ^ p) (omega arith))

halve : (k j : ℕ) → k * 2 ^ suc j / 2 ≡ k * 2 ^ j
halve k j = omega (arith, ap (λ (t : ℕ). k * t) (pow-suc 2 j))

excess-le : (f b k j : ℕ) → k < b → excess f b (k * 2 ^ j) ≤ j
unfolding excess
excess-le zero b k j h = omega arith
excess-le (suc f) b k zero h = ground (arith, lt→ltb (k * 1) b (omega arith))
excess-le (suc f) b k (suc j) h = rw (halve k j) (ground (arith, excess-le f b k j h))

double : (b e : ℕ) → b * 2 ^ suc e ≡ 2 * (b * 2 ^ e)
double b e = omega (arith, ap (λ (t : ℕ). b * t) (pow-suc 2 e))

-- Enough fuel: a number below `b * 2 ^ f` is brought below `b` by the halvings that are found.
excess_fuel : (f b q : ℕ) → q < b * 2 ^ f → q < b * 2 ^ excess f b q
unfolding excess
excess_fuel zero b q h = h
excess_fuel (suc f) b q h = ground (
  arith,
  double b f,
  double b (excess f b (q / 2)),
  excess_fuel f b (q / 2) (omega (arith, double b f)),
)

half_even-exact : (v d : ℕ) → 0 < d → half_even (v * d) d ≡ v
unfolding half_even
half_even-exact v d h = rw (mul-div_cancel v h, mul-mod_left v d) (ground arith)

-- A number of steps k * 2 ^ j with k of at most `precision` bits is its own nearest float.
pub round-exact :
    (t : Format) (s : Bool) (k j v d : ℕ)
    → 0 < d
    → v ≡ k * 2 ^ j
    → k < 2 ^ t.precision
    → v < 2 ^ t.top
    → round t s (v * d) d ≡ fin s v
unfolding round
round-exact t s k j v d hd e hk hv =
    rw (mul-div_cancel v hd) (
      rw (split, half_even-exact c (d * u) (grind (arith, pow-pos x)))
        (rw (← whole, lt→ltb v _ hv)))
  where
    x : ℕ
    x = excess 4096 (2 ^ t.precision) v

    u : ℕ
    u = 2 ^ x

    c : ℕ
    c = k * 2 ^ (j - x)

    below : x ≤ j
    below = rw e (excess-le 4096 (2 ^ t.precision) k j hk)

    whole : v ≡ c * u
    whole = omega (arith, e, ap (λ (p : ℕ). k * p) (split_pow x j below))

    split : v * d ≡ c * (d * u)
    split = omega (arith, ap (λ (p : ℕ). p * d) whole)

-- The same at f32, for a quotient n / d that equals k * 2 ^ j grid steps.
pub f32-exact :
    (s : Bool) (k j n d : ℕ)
    → 0 < d
    → n ≡ k * 2 ^ j * d
    → k < 2 ^ 24
    → k * 2 ^ j < 2 ^ 277
    → round f32 s n d ≡ fin s (k * 2 ^ j)
f32-exact s k j n d hd e hk hv = rw e (round-exact f32 s k j (k * 2 ^ j) d hd refl hk hv)

pub of_ℕ-exact : (n : ℕ) → n < 2 ^ 24 → of_ℕ f32 n ≡ fin false (n * 2 ^ 149)
unfolding of_ℕ
of_ℕ-exact n h = f32-exact false n 149 _ 1 (omega arith) (omega arith) h (omega arith)

-- A product or sum of exact values that has 24 significant bits at most is exact.
pub mul-exact :
    (s s' : Bool) (a b k j : ℕ)
    → a * b ≡ k * 2 ^ j * 2 ^ 149
    → k < 2 ^ 24
    → k * 2 ^ j < 2 ^ 277
    → mul f32 (fin s a) (fin s' b) ≡ fin (xor s s') (k * 2 ^ j)
unfolding mul
mul-exact s s' a b k j e hk hv = f32-exact (xor s s') k j (a * b) (2 ^ 149) (omega arith) e hk hv

pub add-exact :
    (a b k j : ℕ)
    → a + b ≡ k * 2 ^ j
    → k < 2 ^ 24
    → k * 2 ^ j < 2 ^ 277
    → add f32 (fin false a) (fin false b) ≡ fin false (k * 2 ^ j)
unfolding add
add-exact a b k j e hk hv = f32-exact false k j (a + b) 1 (omega arith) (omega (arith, e)) hk hv

pub div-exact :
    (a b k j : ℕ)
    → 0 < b
    → a * 2 ^ 149 ≡ k * 2 ^ j * b
    → k < 2 ^ 24
    → k * 2 ^ j < 2 ^ 277
    → div f32 (fin false a) (fin false b) ≡ fin false (k * 2 ^ j)
unfolding div
div-exact a b k j hb e hk hv = ground (arith, f32-exact false k j (a * 2 ^ 149) b hb e hk hv)

-- An exact difference takes the sign of the larger magnitude.
pub add-exact_pos :
    (a b k j : ℕ)
    → a ≡ k * 2 ^ j + b
    → 0 < k * 2 ^ j
    → k < 2 ^ 24
    → k * 2 ^ j < 2 ^ 277
    → add f32 (fin false a) (fin true b) ≡ fin false (k * 2 ^ j)
unfolding add
add-exact_pos a b k j e hp hk hv =
    ground (arith, f32-exact false k j (a - b) 1 (omega arith) (omega (arith, e)) hk hv)

pub add-exact_neg :
    (a b k j : ℕ)
    → b ≡ k * 2 ^ j + a
    → 0 < k * 2 ^ j
    → k < 2 ^ 24
    → k * 2 ^ j < 2 ^ 277
    → add f32 (fin false a) (fin true b) ≡ fin true (k * 2 ^ j)
unfolding add
add-exact_neg a b k j e hp hk hv =
    ground (arith, f32-exact true k j (b - a) 1 (omega arith) (omega (arith, e)) hk hv)

pub add-exact_back :
    (a b k j : ℕ)
    → b ≡ k * 2 ^ j + a
    → 0 < k * 2 ^ j
    → k < 2 ^ 24
    → k * 2 ^ j < 2 ^ 277
    → add f32 (fin true a) (fin false b) ≡ fin false (k * 2 ^ j)
unfolding add
add-exact_back a b k j e hp hk hv =
    ground (arith, f32-exact false k j (b - a) 1 (omega arith) (omega (arith, e)) hk hv)
