-- ===== src/Float/Near.antt =====
-- How far rounding to f64 moves a value: by at most one part in 2 ^ 53.
use svc_telemetry.Base.{
  ℕ, zero, suc, ◌+◌, ◌*◌, ◌/◌, ◌%◌, ◌^◌, ◌≤◌, ◌<◌, ◌≡◌, refl, ap, ◌∙◌, Bool, arith, ltb, lt→ltb,
  ◌⊎◌, inl, inr, Bool-cases, ◌==◌,
}
use svc_telemetry.Float.{f64, fin, excess, half_even, round}
use svc_telemetry.Float.Exact.{pow-pos, round-exact}
use native.Mathlib.Nat.{
  pow-suc, mul-div_cancel, div-add-mod', mod-lt, mul-le-mul_left, le_of_mul-le-mul_right,
}

-- Halving stops in time.
excess_tight : (f b q : ℕ) → (excess f b q ≡ 0) ⊎ (b * 2 ^ excess f b q ≤ 2 * q)
unfolding excess
excess_tight zero b q = inl refl
excess_tight (suc f) b q = elim (Bool-cases (ltb q b)) [
  | inl l ↦ inl (rw l refl)
  | inr l ↦ elim (excess_tight f b (q / 2)) [
    | inl z ↦ inr (rw l (rw z (ground arith)))
    | inr t ↦ inr (rw l (omega (arith, t, ap (λ (p : ℕ). b * p) (pow-suc 2 (excess f b (q / 2))))))
  ]
]

half_even_near :
    (n d : ℕ)
    → 0 < d
    → (2 * (half_even n d * d) ≤ 2 * n + d) × (2 * n ≤ 2 * (half_even n d * d) + d)
unfolding half_even
half_even_near n d h =
    let e = div-add-mod' n d in
    let l = mod-lt n h in
    elim (Bool-cases (ltb (2 * (n % d)) d)) [
      | inl c ↦ rw c (ground (arith, e, l))
      | inr c ↦ rw c (elim (Bool-cases (ltb d (2 * (n % d)))) [
        | inl g ↦ rw g (ground (arith, e, l))
        | inr g ↦ rw g (elim (Bool-cases (n / d % 2 == 0)) [
          | inl z ↦ rw z (ground (arith, e, l))
          | inr z ↦ rw z (ground (arith, e, l))
        ])
      ])
    ]

-- A value of v steps and its float of m steps.
abbrev pub IsNear : ℕ → ℕ → Type 0
IsNear v m = (2 ^ 53 * m ≤ 2 ^ 53 * v + v) × (2 ^ 53 * v ≤ 2 ^ 53 * m + v)

unit-IsNear :
    (v m u : ℕ)
    → 2 * m ≤ 2 * v + u
    → 2 * v ≤ 2 * m + u
    → (u ≡ 1) ⊎ (2 ^ 53 * u ≤ 2 * v)
    → IsNear v m × (m ≤ 2 * v)
unit-IsNear v m u a b (inl e) = ((omega arith, omega arith), omega arith)
unit-IsNear v m u a b (inr t) = ((omega arith, omega arith), omega arith)

unit_cases :
    (v : ℕ) → (2 ^ excess 4096 (2 ^ 53) v ≡ 1) ⊎ (2 ^ 53 * 2 ^ excess 4096 (2 ^ 53) v ≤ 2 * v)
unit_cases v = elim (excess_tight 4096 (2 ^ 53) v) [ inl z ↦ inl (rw z refl) | inr t ↦ inr t ]

cancel_step :
    (v d u h : ℕ)
    → 0 < d
    → (2 * (h * (d * u)) ≤ 2 * (v * d) + d * u) × (2 * (v * d) ≤ 2 * (h * (d * u)) + d * u)
    → (2 * (h * u) ≤ 2 * v + u) × (2 * v ≤ 2 * (h * u) + u)
cancel_step v d u h pd (a, b) =
    (le_of_mul-le-mul_right (omega (arith, a)) pd, le_of_mul-le-mul_right (omega (arith, b)) pd)

-- A value is at most one part in 2 ^ 53 away from its float.
pub round-IsNear :
    (s : Bool) (v d : ℕ)
    → 0 < d
    → v < 2 ^ 2097
    → (m : ℕ) × (round f64 s (v * d) d ≡ fin s m) × IsNear v m
unfolding round
round-IsNear s v d pd small =
    let u = 2 ^ excess 4096 (2 ^ 53) v in
    let h = half_even (v * d) (d * u) in
    let pu : 0 < d * u = grind (arith, pow-pos (excess 4096 (2 ^ 53) v)) in
    let (a, b) = cancel_step v d u h pd (half_even_near (v * d) (d * u) pu) in
    let (near, bound) = unit-IsNear v (h * u) u a b (unit_cases v) in
    (
      h * u,
      rw (mul-div_cancel v pd) (rw (lt→ltb (h * u) (2 ^ 2098) (omega (arith, bound, small))) refl),
      near,
    )

-- An integer of at most 53 bits is exact.
pub round-integer :
    (s : Bool) (n : ℕ) → n < 2 ^ 53 → round f64 s (n * 2 ^ 1074) 1 ≡ fin s (n * 2 ^ 1074)
round-integer s n small =
    let e =
      round-exact f64 s n 1074 (n * 2 ^ 1074) 1 (omega arith) refl small (omega (arith, small)) in
    ap (λ (v : ℕ). round f64 s v 1) (omega arith) ∙ e

quotient_unit : (n d u : ℕ) → 2 ^ 53 * u ≤ 2 * (n / d) → 2 ^ 53 * (d * u) ≤ 2 * n + 2 ^ 53 * d
quotient_unit n d u t =
    let whole = div-add-mod' n d in let m = mul-le-mul_left d t in omega (arith, m, whole)

-- A quotient and its float, with half a step of slack for the smallest ones.
pub quotient-near :
    (s : Bool) (n d : ℕ)
    → 0 < d
    → n < 2 ^ 2097 * d
    → (m : ℕ) × (round f64 s n d ≡ fin s m)
      × (2 ^ 54 * (m * d) ≤ 2 ^ 54 * n + 2 * n + 2 ^ 53 * d)
      × (2 ^ 54 * n ≤ 2 ^ 54 * (m * d) + 2 * n + 2 ^ 53 * d)
unfolding round
quotient-near s n d pd small =
    let u = 2 ^ excess 4096 (2 ^ 53) (n / d) in
    let h = half_even n (d * u) in
    let pu : 0 < d * u = grind (arith, pow-pos (excess 4096 (2 ^ 53) (n / d))) in
    let (a, b) = half_even_near n (d * u) pu in
    let slack : 2 ^ 53 * (d * u) ≤ 2 * n + 2 ^ 53 * d = elim (unit_cases (n / d)) [
      | inl e ↦ omega (arith, ap (λ (v : ℕ). d * v) e)
      | inr t ↦ quotient_unit n d u t
    ] in
    let above : 2 ^ 54 * (h * u * d) ≤ 2 ^ 54 * n + 2 * n + 2 ^ 53 * d = omega (arith, a, slack) in
    (
      h * u,
      rw (lt→ltb (h * u) (2 ^ 2098) (le_of_mul-le-mul_right (omega (arith, above, small)) pd)) refl,
      above,
      omega (arith, b, slack),
    )
