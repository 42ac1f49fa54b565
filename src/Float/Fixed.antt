-- ===== src/Float/Fixed.antt =====
-- f64 arithmetic on whole multiples of 2^-17: sums, differences and products of them by whole numbers are
-- exact as long as they stay below 2^53 units.
use svc_telemetry.Base.{
  ℕ, ◌+◌, ◌-◌, ◌*◌, ◌/◌, ◌^◌, ◌≤◌, ◌<◌, ◌≡◌, refl, ap, ◌∙◌, arith, Bool, true, false, if◌then◌else◌,
  leb,
}
use svc_telemetry.Float.{
  Float, f64, fin, literal, of_ℕ, div, mul, add, sub, floor, round, excess, half_even, negate,
}
use svc_telemetry.Float.Exact.{round-exact}

-- n / 2^17, and (a - b) / 2^17.
abbrev pub part : ℕ → Float
part n = fin false (n * 2 ^ 1057)

abbrev pub diff : ℕ → ℕ → Float
diff a b = if leb b a then fin false ((a - b) * 2 ^ 1057) else fin true ((b - a) * 2 ^ 1057)

-- The whole number a - b.
abbrev pub whole_diff : ℕ → ℕ → Float
whole_diff a b = if leb b a then fin false ((a - b) * 2 ^ 1074) else fin true ((b - a) * 2 ^ 1074)

part_exact :
    (s : Bool) (k n d : ℕ)
    → 0 < d
    → n ≡ k * 2 ^ 1057 * d
    → k < 2 ^ 53
    → round f64 s n d ≡ fin s (k * 2 ^ 1057)
part_exact s k n d hd e hk =
    rw e (round-exact f64 s k 1057 (k * 2 ^ 1057) d hd refl hk (omega (arith, hk)))

whole_exact :
    (n m : ℕ) → m ≡ n * 2 ^ 1074 → n < 2 ^ 20 → round f64 false m 1 ≡ fin false (n * 2 ^ 1074)
whole_exact n m e h =
    ap (λ (v : ℕ). round f64 false v 1) (omega (arith, e))
    ∙ round-exact f64 false n 1074 (n * 2 ^ 1074) 1 (omega arith) refl (omega (arith, h))
        (omega (arith, h))

pub literal-whole : (n : ℕ) → n < 2 ^ 20 → literal f64 n 1 ≡ fin false (n * 2 ^ 1074)
unfolding literal
literal-whole n h = whole_exact n (n * 2 ^ 1074) refl h

of_ℕ-whole : (n : ℕ) → n < 2 ^ 20 → of_ℕ f64 n ≡ fin false (n * 2 ^ 1074)
unfolding of_ℕ
of_ℕ-whole n h = whole_exact n (n * 2 ^ 1074) refl h

pub literal-half : literal f64 1 2 ≡ part (2 ^ 16)
unfolding literal round excess half_even
literal-half = refl

pub div-part : (n : ℕ) → n < 2 ^ 17 → div f64 (of_ℕ f64 n) (literal f64 131072 1) ≡ part n
unfolding div
div-part n h = rw (of_ℕ-whole n (omega (arith, h))) (
    rw (literal-whole 131072 (omega arith)) (
      part_exact false n (n * 2 ^ 1074 * 2 ^ 1074) (131072 * 2 ^ 1074) (omega arith) (omega arith)
        (omega (arith, h))))

pub mul-part :
    (c n : ℕ) → c < 2 ^ 20 → c * n < 2 ^ 53 → mul f64 (literal f64 c 1) (part n) ≡ part (c * n)
unfolding mul
mul-part c n h k =
    rw (literal-whole c h) (part_exact false (c * n) _ (2 ^ 1074) (omega arith) (omega arith) k)

pub add-part : (a b : ℕ) → a + b < 2 ^ 53 → add f64 (part a) (part b) ≡ part (a + b)
unfolding add
add-part a b h = part_exact false (a + b) _ 1 (omega arith) (omega arith) h

pub sub-part : (a b : ℕ) → a < 2 ^ 53 → b < 2 ^ 53 → sub f64 (part a) (part b) ≡ diff a b
unfolding sub add negate
sub-part a b h k = ground (
  arith,
  part_exact false (a - b) (a * 2 ^ 1057 - b * 2 ^ 1057) 1 (omega arith),
  part_exact true (b - a) (b * 2 ^ 1057 - a * 2 ^ 1057) 1 (omega arith),
)

pub sub-back :
    (a b : ℕ)
    → a ≤ b
    → b < 2 ^ 53
    → sub f64 (fin true (a * 2 ^ 1057)) (fin true (b * 2 ^ 1057)) ≡ part (b - a)
unfolding sub add negate
sub-back a b h k =
    ground (arith, part_exact false (b - a) (b * 2 ^ 1057 - a * 2 ^ 1057) 1 (omega arith))

pub add-diff :
    (a b h : ℕ) → a + h < 2 ^ 53 → b < 2 ^ 53 → add f64 (diff a b) (part h) ≡ diff (a + h) b
unfolding add
add-diff a b h k l = ground (
  arith,
  part_exact false (a - b + h) ((a - b) * 2 ^ 1057 + h * 2 ^ 1057) 1 (omega arith),
  part_exact false (a + h - b) (h * 2 ^ 1057 - (b - a) * 2 ^ 1057) 1 (omega arith),
  part_exact true (b - (a + h)) ((b - a) * 2 ^ 1057 - h * 2 ^ 1057) 1 (omega arith),
)

pub floor-diff :
    (a b : ℕ)
    → b ≤ 60 * 2 ^ 17
    → floor f64 (diff a b) ≡ whole_diff ((a + 60 * 2 ^ 17 - b) / 2 ^ 17) 60
unfolding floor
floor-diff a b h = ground arith
