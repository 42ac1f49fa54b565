-- ===== src/World/Tally.antt =====
-- Measures of a history, summed over its events, and rules for computations that leave a measure as it
-- is.
use svc_telemetry.Base.{ℕ, ◌+◌, ◌≤◌, ◌≡◌, refl, ap, ◌∙◌, arith, Result, ok, err, [], ◌∷◌, ◌++◌}
use mathlib.Core.List.{reverse, reverse-append}
use svc_telemetry.World.{Event, History, Io, ◌>>=◌, lift, or_err, ignoring}

unfoldable pub tally : (Event → ℕ) → History → ℕ
tally weigh [] = 0
tally weigh (e ∷ h) = weigh e + tally weigh h

-- What a computation sends does not count.
unfoldable pub IsQuiet : {E A : Type 0} → (Event → ℕ) → Io E A → Type 0
IsQuiet weigh m = (h : History) → tally weigh (m h).1 ≡ tally weigh h

module _ (weigh : Event → ℕ) {E A : Type 0} where
  pub lift-IsQuiet : (r : Result E A) → IsQuiet weigh (lift r)
  unfolding IsQuiet
  lift-IsQuiet r h = refl

  pub or_err-IsQuiet :
      {D : Type 0} (m : Io D A) (e : E) → IsQuiet weigh m → IsQuiet weigh (or_err m e)
  unfolding IsQuiet
  or_err-IsQuiet m e q h = ground (arith, q h)

  pub bind-IsQuiet :
      {B : Type 0} (m : Io E A) (f : A → Io E B)
      → IsQuiet weigh m
      → ((a : A) → IsQuiet weigh (f a))
      → IsQuiet weigh (m >>= f)
  unfolding IsQuiet
  bind-IsQuiet {B} m f q r h = go (m h) (q h)
    where
      go :
          (x : Result E A × History)
          → tally weigh x.1 ≡ tally weigh h
          → tally weigh
              (elim x.0 as (λ y. Result E B × History) [ ok a ↦ f a x.1 | err e ↦ (err e, x.1) ]).1
            ≡ tally weigh h
      go (ok a, h1) p = r a h1 ∙ p
      go (err e, h1) p = p

pub ignoring-IsQuiet :
    (weigh : Event → ℕ) (E : Type 0) {D A : Type 0} (m : Io D A)
    → IsQuiet weigh m
    → IsQuiet weigh (ignoring {E = E} m)
unfolding IsQuiet
ignoring-IsQuiet weigh E m q h = q h

-- For `search`: the rules that go through a computation.
pub ruleset quiet_rules = (bind-IsQuiet, lift-IsQuiet, or_err-IsQuiet, ignoring-IsQuiet)

-- What a computation sends counts at most `n`.
unfoldable pub Adds : {E A : Type 0} → (Event → ℕ) → ℕ → Io E A → Type 0
Adds weigh n m =
    (h : History)
    → (tally weigh h ≤ tally weigh (m h).1) × (tally weigh (m h).1 ≤ n + tally weigh h)

module _ (weigh : Event → ℕ) {E A : Type 0} where
  pub Adds-IsQuiet : (m : Io E A) → Adds weigh 0 m → IsQuiet weigh m
  unfolding IsQuiet Adds
  Adds-IsQuiet m a h = omega (arith, (a h).0, (a h).1)

  pub IsQuiet-Adds : (m : Io E A) (n : ℕ) → IsQuiet weigh m → Adds weigh n m
  unfolding IsQuiet Adds
  IsQuiet-Adds m n q h = (omega (arith, q h), omega (arith, q h))

  pub bind-Adds :
      {B : Type 0} (m : Io E A) (f : A → Io E B) (j n : ℕ)
      → Adds weigh j m
      → ((a : A) → Adds weigh n (f a))
      → Adds weigh (j + n) (m >>= f)
  unfolding Adds
  bind-Adds {B} m f j n q r h = go (m h) (q h)
    where
      go :
          (x : Result E A × History)
          → (tally weigh h ≤ tally weigh x.1) × (tally weigh x.1 ≤ j + tally weigh h)
          → (tally weigh h
              ≤ tally weigh
                  (elim x.0 as (λ y. Result E B × History) [
                    | ok a ↦ f a x.1
                    | err e ↦ (err e, x.1)
                  ]).1)
            × (tally weigh
                  (elim x.0 as (λ y. Result E B × History) [
                    | ok a ↦ f a x.1
                    | err e ↦ (err e, x.1)
                  ]).1
                ≤ j + n + tally weigh h)
      go (ok a, h1) (p0, p1) = (omega (arith, (r a h1).0), omega (arith, (r a h1).1))
      go (err e, h1) (p0, p1) = (p0, omega arith)

  pub quiet_bind-Adds :
      {B : Type 0} (m : Io E A) (f : A → Io E B) (n : ℕ)
      → IsQuiet weigh m
      → ((a : A) → Adds weigh n (f a))
      → Adds weigh n (m >>= f)
  unfolding Adds
  quiet_bind-Adds m f n q r h =
      let p = bind-Adds m f 0 n (IsQuiet-Adds m 0 q) r h in (p.0, omega (arith, p.1))

pub tally-append :
    (weigh : Event → ℕ) (g h : History) → tally weigh (g ++ h) ≡ tally weigh g + tally weigh h
unfolding tally
tally-append weigh [] h = omega arith
tally-append weigh (e ∷ g) h = omega (arith, tally-append weigh g h)

-- The order does not matter.
pub tally-reverse : (weigh : Event → ℕ) (h : History) → tally weigh (reverse h) ≡ tally weigh h
unfolding tally
tally-reverse weigh [] = refl
tally-reverse weigh (e ∷ h) =
    ap (tally weigh) (reverse-append (e ∷ []) h)
    ∙ tally-append weigh (reverse h) (e ∷ [])
    ∙ omega (arith, tally-reverse weigh h)
