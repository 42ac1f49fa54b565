-- ===== src/Cache/Keys.antt =====
-- The key of a packet, `bytes_to_key` of server/src/cache/mod.rs: two hexadecimal digits a byte.
use svc_telemetry.Base.{ℕ, ◌/◌, ◌%◌, ◌<◌, ◌≡◌, refl, sym, ◌∙◌, arith, List, [], ◌∷◌, ◌++◌, All}
use svc_telemetry.Base.Text.{hex_digit, hex_byte}
use svc_telemetry.Cache.{bytes_to_key}
use mathlib.Core.List.{foldl, append_assoc, append-nil}

abbrev digits_of : List ℕ → List ℕ
digits_of [] = []
digits_of (b ∷ bs) = hex_digit (b / 16) ∷ hex_digit (b % 16) ∷ digits_of bs

fold-digits :
    (acc bs : List ℕ) → foldl (λ acc byte. acc ++ hex_byte byte) acc bs ≡ acc ++ digits_of bs
fold-digits acc [] = sym (append-nil acc)
fold-digits acc (b ∷ bs) =
    fold-digits (acc ++ hex_byte b) bs ∙ append_assoc acc (hex_byte b) (digits_of bs)

bytes_to_key-digits : (bs : List ℕ) → bytes_to_key bs ≡ digits_of bs
unfolding bytes_to_key
bytes_to_key-digits bs = fold-digits [] bs

hex_digit-injective : (m n : ℕ) → m < 16 → n < 16 → hex_digit m ≡ hex_digit n → m ≡ n
hex_digit-injective m n h k e = ground arith

digits_of-injective :
    (a b : List ℕ) → All (λ x. x < 256) a → All (λ x. x < 256) b → digits_of a ≡ digits_of b → a ≡ b
digits_of-injective [] [] h k e = refl
digits_of-injective [] (y ∷ ys) h k e = cc
digits_of-injective (x ∷ xs) [] h k e = cc
digits_of-injective (x ∷ xs) (y ∷ ys) (hx, hxs) (hy, hys) e = ground (
  arith,
  hex_digit-injective (x / 16) (y / 16) (omega arith) (omega arith),
  hex_digit-injective (x % 16) (y % 16) (omega arith) (omega arith),
  digits_of-injective xs ys hxs hys,
)

-- Two packets, lists of bytes, have the same key only if they are the same.
pub bytes_to_key-injective :
    (a b : List ℕ)
    → All (λ x. x < 256) a
    → All (λ x. x < 256) b
    → bytes_to_key a ≡ bytes_to_key b
    → a ≡ b
bytes_to_key-injective a b h k e =
    digits_of-injective a b h k (sym (bytes_to_key-digits a) ∙ e ∙ bytes_to_key-digits b)
