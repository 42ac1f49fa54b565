-- ===== src/Float/Root.antt =====
-- The integer square root behind `sqrt` is right, with one round of fuel for every two bits.
use svc_telemetry.Base.{
  ℕ, zero, suc, ◌+◌, ◌*◌, ◌/◌, ◌^◌, ◌≤◌, ◌<◌, arith, ◌==◌, leb, Bool-cases, inl, inr, if◌then◌else◌,
}
use svc_telemetry.Float.{isqrt}
use native.Mathlib.Nat.{pow-suc}

-- The root of `n`, from the root `r` of a quarter of `n`.
isqrt_round :
    (n r : ℕ)
    → r * r ≤ n / 4
    → n / 4 < (r + 1) * (r + 1)
    → let q = if leb ((2 * r + 1) * (2 * r + 1)) n then 2 * r + 1 else 2 * r in
      (q * q ≤ n) × (n < (q + 1) * (q + 1))
isqrt_round n r a b = elim (Bool-cases (leb ((2 * r + 1) * (2 * r + 1)) n)) [
  | inl e ↦ rw e (ground (arith, a, b))
  | inr e ↦ rw e (ground (arith, a, b))
]

pub isqrt-square :
    (f n : ℕ) → n < 4 ^ f → (isqrt f n * isqrt f n ≤ n) × (n < (isqrt f n + 1) * (isqrt f n + 1))
unfolding isqrt
isqrt-square zero n h = ground arith
isqrt-square (suc f) n h = elim (Bool-cases (n == 0)) [
  | inl e ↦ rw e (ground arith)
  | inr e ↦ rw e (
      let (a, b) = isqrt-square f (n / 4) (omega (arith, h, pow-suc 4 f)) in
      isqrt_round n (isqrt f (n / 4)) a b)
]
