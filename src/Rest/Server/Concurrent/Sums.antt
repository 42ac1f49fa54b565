-- ===== src/Rest/Server/Concurrent/Sums.antt =====
-- Sums and predicates over the tasks in flight of server/src/rest/server.rs.
use svc_telemetry.Base.{ℕ, ◌+◌, ◌≤◌, ◌≡◌, refl, arith, List, [], ◌∷◌, ◌++◌, All}

module _ {A : Type 0} where
  pub total : (A → ℕ) → List A → ℕ
  total f [] = 0
  total f (t ∷ ts) = f t + total f ts

  pub total-nil : (f : A → ℕ) → total f [] ≡ 0
  unfolding total
  total-nil f = refl

  pub total-cons : (f : A → ℕ) (t : A) (ts : List A) → total f (t ∷ ts) ≡ f t + total f ts
  unfolding total
  total-cons f t ts = refl

  -- One task among the others.
  pub total_middle :
      (f : A → ℕ) (ts : List A) (t : A) (us : List A)
      → total f (ts ++ (t ∷ us)) ≡ f t + total f (ts ++ us)
  unfolding total
  total_middle f [] t us = refl
  total_middle f (s ∷ ts) t us = omega (arith, total_middle f ts t us)

  pub total_mono :
      (f g : A → ℕ) (P : A → Type 0) (ts : List A)
      → ((t : A) → P t → f t ≤ g t)
      → All P ts
      → total f ts ≤ total g ts
  unfolding total
  total_mono f g P [] h a = omega arith
  total_mono f g P (t ∷ ts) h (p, a) = omega (arith, h t p, total_mono f g P ts h a)

  pub All_middle :
      (P : A → Type 0) (ts : List A) (t : A) (us : List A) → All P (ts ++ (t ∷ us)) → P t
  All_middle P [] t us (p, a) = p
  All_middle P (s ∷ ts) t us (p, a) = All_middle P ts t us a

  pub All-replace :
      (P : A → Type 0) (ts : List A) (t u : A) (us : List A)
      → P u
      → All P (ts ++ (t ∷ us))
      → All P (ts ++ (u ∷ us))
  All-replace P [] t u us h (p, a) = (h, a)
  All-replace P (s ∷ ts) t u us h (p, a) = (p, All-replace P ts t u us h a)
