-- ===== src/Client/Text.antt =====
-- The quotes that client-rest/examples/netrid-flow.rs takes off a token:
-- `trim_matches('"').replace("\"", "")`.
use svc_telemetry.Base.{
  ℕ, ◌<◌, ◌≡◌, ◌≢◌, refl, sym, ap, ◌∙◌, arith, [], ◌∷◌, ◌++◌, All, ◌==◌, if◌then◌else◌, Bool-cases,
  inl, inr,
}
use svc_telemetry.World.{Bytes}
use mathlib.Core.List.{reverse, reverse-append, append-nil, reverse-reverse}

abbrev pub quote : ℕ
quote = 34

drop_quotes : Bytes → Bytes
drop_quotes [] = []
drop_quotes (c ∷ s) = let rest = drop_quotes s in if c == quote then rest else c ∷ s

pub trim_quotes : Bytes → Bytes
unfolding drop_quotes
trim_quotes s = reverse (drop_quotes (reverse (drop_quotes s)))

pub without_quotes : Bytes → Bytes
without_quotes [] = []
without_quotes (c ∷ s) = let rest = without_quotes s in if c == quote then rest else c ∷ rest

-- A printable character of ASCII other than the quote and the backslash.
abbrev pub IsPlain : ℕ → Type 0
IsPlain c = (0x20 < c) × (c < 0x7f) × (c ≢ quote) × (c ≢ 92)

pub without_quotes_plain : (s : Bytes) → All IsPlain s → without_quotes s ≡ s
unfolding without_quotes
without_quotes_plain [] h = refl
without_quotes_plain (c ∷ s) h = ground (arith, without_quotes_plain s)

without_quotes-append :
    (s t : Bytes) → without_quotes (s ++ t) ≡ without_quotes s ++ without_quotes t
unfolding without_quotes
without_quotes-append [] t = refl
without_quotes-append (c ∷ s) t = ground (arith, without_quotes-append s t)

without_quotes-drop_quotes : (s : Bytes) → without_quotes (drop_quotes s) ≡ without_quotes s
unfolding without_quotes drop_quotes
without_quotes-drop_quotes [] = refl
without_quotes-drop_quotes (c ∷ s) = ground (arith, without_quotes-drop_quotes s)

without_quotes-reverse : (s : Bytes) → without_quotes (reverse s) ≡ reverse (without_quotes s)
unfolding without_quotes
without_quotes-reverse [] = refl
without_quotes-reverse (c ∷ s) =
    ap without_quotes (reverse-append (c ∷ []) s)
    ∙ without_quotes-append (reverse s) (c ∷ [])
    ∙ elim (Bool-cases (c == quote)) [
      | inl q ↦ rw q (append-nil (without_quotes (reverse s)) ∙ without_quotes-reverse s)
      | inr q ↦ rw q (
          ap (λ x. x ++ (c ∷ [])) (without_quotes-reverse s)
          ∙ sym (reverse-append (c ∷ []) (without_quotes s)))
    ]

-- Taking off the quotes at the ends first makes no difference.
without_quotes-trim_quotes : (s : Bytes) → without_quotes (trim_quotes s) ≡ without_quotes s
unfolding trim_quotes
without_quotes-trim_quotes s =
    without_quotes-reverse (drop_quotes (reverse (drop_quotes s)))
    ∙ ap reverse (without_quotes-drop_quotes (reverse (drop_quotes s)))
    ∙ ap reverse (without_quotes-reverse (drop_quotes s))
    ∙ reverse-reverse (without_quotes (drop_quotes s))
    ∙ without_quotes-drop_quotes s

-- A quoted text comes back.
pub unquoted :
    (t : Bytes) → All IsPlain t → without_quotes (trim_quotes (quote ∷ (t ++ (quote ∷ [])))) ≡ t
unfolding without_quotes
unquoted t p =
    without_quotes-trim_quotes (quote ∷ (t ++ (quote ∷ [])))
    ∙ without_quotes-append t (quote ∷ [])
    ∙ append-nil (without_quotes t)
    ∙ without_quotes_plain t p

pub All-append : (P : ℕ → Type 0) (s t : Bytes) → All P s → All P t → All P (s ++ t)
All-append P [] t h k = k
All-append P (c ∷ s) t (p, h) k = (p, All-append P s t h k)

pub All-mono : (P Q : ℕ → Type 0) (s : Bytes) → ((c : ℕ) → P c → Q c) → All P s → All Q s
All-mono P Q [] f h = tt
All-mono P Q (c ∷ s) f (p, h) = (f c p, All-mono P Q s f h)
