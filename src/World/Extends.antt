-- ===== src/World/Extends.antt =====
-- Computations only add to the history: what was sent before stays.
use svc_telemetry.Base.{◌≡◌, refl, ◌∙◌, ap, sym, Result, ok, err, [], ◌++◌}
use svc_telemetry.World.{History, Io, ◌>>=◌, lift, or_err, ignoring}
use mathlib.Core.List.{append_assoc}

unfoldable pub Extends : {E A : Type 0} → Io E A → Type 0
Extends m = (h : History) → (sent : History) × ((m h).1 ≡ sent ++ h)

module _ {E A : Type 0} where
  pub lift-Extends : (r : Result E A) → Extends (lift r)
  unfolding Extends
  lift-Extends r h = ([], refl)

  pub or_err-Extends : {D : Type 0} (m : Io D A) (e : E) → Extends m → Extends (or_err m e)
  unfolding Extends
  or_err-Extends {D} m e x h = go (m h) (x h)
    where
      go :
          (r : Result D A × History)
          → (sent : History) × (r.1 ≡ sent ++ h)
          → (sent : History) × ((elim r.0 as (λ y. Result E A × History) [
            | ok a ↦ (ok a, r.1)
            | err d ↦ (err e, r.1)
          ]).1
              ≡ sent ++ h)
      go (ok a, h1) p = p
      go (err d, h1) p = p

  pub bind-Extends :
      {B : Type 0} (m : Io E A) (f : A → Io E B)
      → Extends m
      → ((a : A) → Extends (f a))
      → Extends (m >>= f)
  unfolding Extends
  bind-Extends {B} m f x y h = go (m h) (x h)
    where
      go :
          (r : Result E A × History)
          → (sent : History) × (r.1 ≡ sent ++ h)
          → (sent : History) × ((elim r.0 as (λ z. Result E B × History) [
            | ok a ↦ f a r.1
            | err e ↦ (err e, r.1)
          ]).1
              ≡ sent ++ h)
      go (ok a, h1) (s, p) =
          let (s', p') = y a h1 in (s' ++ s, p' ∙ ap (λ t. s' ++ t) p ∙ sym (append_assoc s' s h))
      go (err e, h1) p = p

-- What a computation does after a part that leaves the history `h1`.
pub after-Extends :
    {E A B : Type 0} (m : Io E A) (f : A → Io E B) (h h1 : History)
    → (m h).1 ≡ h1
    → ((a : A) → Extends (f a))
    → (sent : History) × (((m >>= f) h).1 ≡ sent ++ h1)
unfolding Extends
after-Extends {E} {A} {B} m f h h1 p x = go (m h) p
  where
    go :
        (r : Result E A × History)
        → r.1 ≡ h1
        → (sent : History) × ((elim r.0 as (λ z. Result E B × History) [
          | ok a ↦ f a r.1
          | err e ↦ (err e, r.1)
        ]).1
            ≡ sent ++ h1)
    go (ok a, h2) q = rw (← q) (x a h2)
    go (err e, h2) q = ([], q)

pub ignoring-Extends :
    (E : Type 0) {D A : Type 0} (m : Io D A) → Extends m → Extends (ignoring {E = E} m)
unfolding Extends
ignoring-Extends E m x h = x h

-- For `search`: the rules that go through a computation.
pub ruleset extends_rules = (bind-Extends, lift-Extends, or_err-Extends, ignoring-Extends)
