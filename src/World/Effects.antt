-- ===== src/World/Effects.antt =====
-- Rules for computations with effects: which failures come before any effect, and which cannot come.
use svc_telemetry.Base.{arith, ◌≡◌, refl, ap, ◌∙◌, ◌≢◌, Result, ok, err, ◌⊎◌, inl, inr}
use svc_telemetry.World.{History, Io, ◌>>=◌, return, fail, lift, or_err, ignoring}

-- A success leaves the history as it was.
unfoldable pub Keeps : {E A : Type 0} → Io E A → Type 0
Keeps {E} {A} m = (a : A) (h h' : History) → m h ≡ (ok a, h') → h' ≡ h

-- A failure with `e` leaves the history as it was.
unfoldable pub Rejects : {E A : Type 0} → E → Io E A → Type 0
Rejects e m = (h h' : History) → m h ≡ (err e, h') → h' ≡ h

unfoldable pub Never : {E A : Type 0} → E → Io E A → Type 0
Never e m = (h h' : History) → m h ≢ (err e, h')

module _ {E A B : Type 0} (m : Io E A) (f : A → Io E B) (e : E) where
  pub bind_cases :
      (h h' : History)
      → ◌>>=◌ m f h ≡ (err e, h')
      → (m h ≡ (err e, h'))
        ⊎ ((a : A) × (h1 : History) × (m h ≡ (ok a, h1)) × (f a h1 ≡ (err e, h')))
  bind_cases h h' p = go (m h) refl p
    where
      go :
          (r : Result E A × History)
          → m h ≡ r
          → (elim r.0 [ ok a ↦ f a r.1 | err x ↦ (err x, r.1) ]) ≡ (err e, h')
          → (m h ≡ (err e, h'))
            ⊎ ((a : A) × (h1 : History) × (m h ≡ (ok a, h1)) × (f a h1 ≡ (err e, h')))
      go (ok a, h1) q p = inr (a, h1, q, p)
      go (err x, h1) q p = inl (q ∙ cc)

  pub Rejects-bind : Keeps m → Rejects e m → ((a : A) → Rejects e (f a)) → Rejects e (m >>= f)
  unfolding Keeps Rejects
  Rejects-bind k r s h h' p = elim (bind_cases h h' p) [
    | inl q ↦ r h h' q
    | inr (a, h1, q, t) ↦ s a h1 h' t ∙ k a h h1 q
  ]

  -- After the rejection nothing can give `e`.
  pub Rejects-bind_Never : Rejects e m → ((a : A) → Never e (f a)) → Rejects e (m >>= f)
  unfolding Rejects Never
  Rejects-bind_Never r n h h' p = elim (bind_cases h h' p) [
    | inl q ↦ r h h' q
    | inr (a, h1, q, t) ↦ absurd (n a h1 h' t)
  ]

  pub Never-bind : Never e m → ((a : A) → Never e (f a)) → Never e (m >>= f)
  unfolding Never
  Never-bind n k h h' p = elim (bind_cases h h' p) [
    | inl q ↦ n h h' q
    | inr (a, h1, q, t) ↦ k a h1 h' t
  ]

module _ {E A : Type 0} where
  pub Keeps-lift : (r : Result E A) → Keeps (lift r)
  unfolding Keeps
  Keeps-lift r a h h' p = cc

  pub Rejects-lift : (e : E) (r : Result E A) → Rejects e (lift r)
  unfolding Rejects
  Rejects-lift e r h h' p = cc

  pub Rejects-Never : (e : E) (m : Io E A) → Never e m → Rejects e m
  unfolding Rejects Never
  Rejects-Never e m n h h' p = absurd (n h h' p)

  pub Never-or_err : {D : Type 0} (e d : E) (m : Io D A) → e ≢ d → Never e (or_err m d)
  unfolding Never
  Never-or_err e d m ne h h' p = ground arith

  pub Never-ignoring : {D : Type 0} (e : E) (m : Io D A) → Never e (ignoring m)
  unfolding Never
  Never-ignoring e m h h' p = cc

module _ {E A B : Type 0} where
  -- A bind after a success or a failure.
  after : (A → Io E B) → Result E A × History → Result E B × History
  after f r = elim r.0 [ ok a ↦ f a r.1 | err x ↦ (err x, r.1) ]

  pub bind_ok :
      (m : Io E A) (f : A → Io E B) (a : A) (h h' : History)
      → m h ≡ (ok a, h')
      → (m >>= f) h ≡ f a h'
  unfolding after
  bind_ok m f a h h' q = ap (after f) q

  pub bind_err :
      (m : Io E A) (f : A → Io E B) (e : E) (h h' : History)
      → m h ≡ (err e, h')
      → (m >>= f) h ≡ (err e, h')
  unfolding after
  bind_err m f e h h' q = ap (after f) q

  pub bind-eq-ok :
      (m : Io E A) (f : A → Io E B) (b : B) (h h' : History)
      → (m >>= f) h ≡ (ok b, h')
      → (a : A) × (h1 : History) × (m h ≡ (ok a, h1)) × (f a h1 ≡ (ok b, h'))
  unfolding after
  bind-eq-ok m f b h h' p = go (m h) refl p
    where
      go :
          (r : Result E A × History)
          → m h ≡ r
          → after f r ≡ (ok b, h')
          → (a : A) × (h1 : History) × (m h ≡ (ok a, h1)) × (f a h1 ≡ (ok b, h'))
      go (ok a, h1) q e = (a, h1, q, e)
      go (err x, h1) q e = cc e

module _ {D E A : Type 0} where
  renamed : E → Result D A × History → Result E A × History
  renamed e r = elim r.0 [ ok a ↦ (ok a, r.1) | err d ↦ (err e, r.1) ]

  pub or_err_ok :
      (m : Io D A) (e : E) (a : A) (h h' : History) → m h ≡ (ok a, h') → or_err m e h ≡ (ok a, h')
  unfolding renamed
  or_err_ok m e a h h' q = ap (renamed e) q

  pub or_err-eq-ok :
      (m : Io D A) (e : E) (a : A) (h h' : History) → or_err m e h ≡ (ok a, h') → m h ≡ (ok a, h')
  unfolding renamed
  or_err-eq-ok m e a h h' p = go (m h) refl p
    where
      go : (r : Result D A × History) → m h ≡ r → renamed e r ≡ (ok a, h') → m h ≡ (ok a, h')
      go (ok x, h1) q w = q ∙ cc w
      go (err x, h1) q w = cc w

-- A success gives `a`.
unfoldable pub Yields : {E A : Type 0} → A → Io E A → Type 0
Yields {E} a m = (h : History) → ((m h).0 ≡ ok a) ⊎ ((e : E) × ((m h).0 ≡ err e))

pub return-Yields : (E : Type 0) {A : Type 0} (a : A) → Yields {E = E} a (return a)
unfolding Yields
return-Yields E a h = inl refl

module _ {E A : Type 0} (a : A) where
  pub fail-Yields : (e : E) → Yields a (fail e)
  unfolding Yields
  fail-Yields e h = inr (e, refl)

  pub bind-Yields :
      {B : Type 0} (m : Io E B) (f : B → Io E A) → ((b : B) → Yields a (f b)) → Yields a (m >>= f)
  unfolding Yields
  bind-Yields {B} m f y h = go (m h)
    where
      go :
          (x : Result E B × History)
          → ((elim x.0 as (λ r. Result E A × History) [ ok b ↦ f b x.1 | err e ↦ (err e, x.1) ]).0
              ≡ ok a)
            ⊎ ((e : E) × ((elim x.0 as (λ r. Result E A × History) [
              | ok b ↦ f b x.1
              | err e ↦ (err e, x.1)
            ]).0
                  ≡ err e))
      go (ok b, h1) = y b h1
      go (err e, h1) = inr (e, refl)

pub ruleset yield_rules = (bind-Yields, return-Yields, fail-Yields)

-- A `?` on a value of Rust's `Result`, in a computation that succeeds.
pub lift_bind-eq-ok :
    {E A B : Type 0} (r : Result E A) (f : A → Io E B) (b : B) (h h' : History)
    → (lift r >>= f) h ≡ (ok b, h')
    → (a : A) × (r ≡ ok a) × (f a h ≡ (ok b, h'))
lift_bind-eq-ok (ok a) f b h h' e = (a, refl, e)
lift_bind-eq-ok (err x) f b h h' e = cc e
