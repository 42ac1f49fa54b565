-- ===== src/Base/Lists.antt =====
-- Lists measured and indexed by native numbers, under the library's names.
use Prim.Native.Nat.{ℕ, zero, suc, ◌+◌}
use mathlib.Core.Path.{◌≡◌, refl, sym, ap, ◌∙◌}
use mathlib.Core.Logic.{inl, inr}
use mathlib.Core.Bool.{Bool, true, false, ◌&&◌}
use svc_telemetry.Base.Tests.{◌==◌, ==_refl, Bool-cases}
use mathlib.Core.List.{List, [], ◌∷◌, ◌++◌, map}
use native.Mathlib.Omega.{arith}

module _ {ℓ} {A : Type ℓ} where
  abbrev pub length : List A → ℕ
  length [] = 0
  length (x ∷ xs) = suc (length xs)

  abbrev pub get_or : List A → ℕ → A → A
  get_or [] i d = d
  get_or (x ∷ xs) zero d = x
  get_or (x ∷ xs) (suc i) d = get_or xs i d

  abbrev pub take : ℕ → List A → List A
  take zero xs = []
  take (suc n) [] = []
  take (suc n) (x ∷ xs) = x ∷ take n xs

  abbrev pub drop : ℕ → List A → List A
  drop zero xs = xs
  drop (suc n) [] = []
  drop (suc n) (x ∷ xs) = drop n xs

  abbrev pub replicate : ℕ → A → List A
  replicate zero a = []
  replicate (suc n) a = a ∷ replicate n a

  abbrev pub All {κ} : (A → Type κ) → List A → Type κ
  All P [] = Unit {κ}
  All P (x ∷ xs) = P x × All P xs

  pub length-append : (xs ys : List A) → length (xs ++ ys) ≡ length xs + length ys
  length-append [] ys = omega arith
  length-append (x ∷ xs) ys = omega (arith, length-append xs ys)

pub length-map {ℓ κ} :
    {A : Type ℓ} {B : Type κ} (f : A → B) (xs : List A) → length (map f xs) ≡ length xs
length-map f [] = refl
length-map f (x ∷ xs) = ap suc (length-map f xs)

-- Whether two lists of numbers are the same.
unfoldable pub same : List ℕ → List ℕ → Bool
same [] [] = true
same [] (y ∷ ys) = false
same (x ∷ xs) [] = false
same (x ∷ xs) (y ∷ ys) = (x == y) && same xs ys

pub same_refl : (k : List ℕ) → same k k ≡ true
unfolding same
same_refl [] = refl
same_refl (x ∷ xs) = rw (==_refl x) (same_refl xs)

pub eq_of_same : (xs ys : List ℕ) → same xs ys ≡ true → xs ≡ ys
unfolding same
eq_of_same [] [] e = refl
eq_of_same [] (y ∷ ys) e = cc
eq_of_same (x ∷ xs) [] e = cc
eq_of_same (x ∷ xs) (y ∷ ys) e = ground (arith, eq_of_same xs ys)

-- A test of lists agrees with one of their images under an injective function.
pub same_ext :
    (xs ys vs ws : List ℕ) → (xs ≡ ys → vs ≡ ws) → (vs ≡ ws → xs ≡ ys) → same xs ys ≡ same vs ws
same_ext xs ys vs ws f g = elim (Bool-cases (same xs ys)) [
  | inl e ↦ rw (f (eq_of_same xs ys e)) (e ∙ sym (same_refl ws))
  | inr e ↦ elim (Bool-cases (same vs ws)) [
    | inr w ↦ e ∙ sym w
    | inl w ↦ let r : same xs ys ≡ true = rw (g (eq_of_same vs ws w)) (same_refl ys) in r ∙ sym w
  ]
]
