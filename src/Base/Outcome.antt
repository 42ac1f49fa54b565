-- ===== src/Base/Outcome.antt =====
-- Rust's `Result<A, E>`, and the chaining that `?` and `map_err` stand for.
use mathlib.Core.Path.{◌≡◌, refl}
use mathlib.Core.Logic.{◌⊎◌, inl, inr}
use mathlib.Core.Option.{Option, none, some}

pub data Result {ℓ κ} (E : Type ℓ) (A : Type κ) : Type (ℓ ⊔ κ) where
  ok : A → Result E A
  err : E → Result E A

infixl 5 ◌>>=◌
abbrev pub ◌>>=◌ {ℓ κ μ} :
    {E : Type ℓ} {A : Type κ} {B : Type μ} → Result E A → (A → Result E B) → Result E B
err e >>= k = err e
ok a >>= k = k a

-- `o.ok_or(e)`
abbrev pub ok_or {ℓ κ} : {E : Type ℓ} {A : Type κ} → Option A → E → Result E A
ok_or none e = err e
ok_or (some a) e = ok a

-- `r.map_err(|_| e)`
abbrev pub map_err {ℓ κ μ} :
    {D : Type ℓ} {E : Type κ} {A : Type μ} → (D → E) → Result D A → Result E A
map_err f (ok a) = ok a
map_err f (err d) = err (f d)

pub Result-cases {ℓ κ} :
    {E : Type ℓ} {A : Type κ} (r : Result E A) → ((a : A) × (r ≡ ok a)) ⊎ ((e : E) × (r ≡ err e))
Result-cases (ok a) = inl (a, refl)
Result-cases (err e) = inr (e, refl)

-- Inversion of a success, through each of the three.
module _ {ℓ κ μ} {E : Type ℓ} {A : Type κ} {B : Type μ} where
  pub >>=-eq-ok :
      (r : Result E A) (k : A → Result E B) {answer : B}
      → (r >>= k) ≡ ok answer
      → (x : A) × (r ≡ ok x) × (k x ≡ ok answer)
  >>=-eq-ok (err e) k p = cc
  >>=-eq-ok (ok x) k p = (x, refl, p)

pub ok_or-eq-ok {ℓ κ} :
    {E : Type ℓ} {A : Type κ} (o : Option A) (e : E) {a : A} → ok_or o e ≡ ok a → o ≡ some a
ok_or-eq-ok none e h = cc
ok_or-eq-ok (some x) e h = cc

pub map_err-eq-ok {ℓ κ μ} :
    {D : Type ℓ} {E : Type κ} {A : Type μ} (f : D → E) (r : Result D A) {a : A}
    → map_err f r ≡ ok a
    → r ≡ ok a
map_err-eq-ok f (ok x) h = cc
map_err-eq-ok f (err d) h = cc
