-- ===== src/Base/Int.antt =====
-- Signed integers over the native numbers, under the library's names, with the wrap-around of i32.
use Prim.Native.Nat.{ℕ, suc, ◌+◌, ◌-◌, ◌*◌, ◌%◌, ◌^◌}
use svc_telemetry.Base.Tests.{ltb, leb, if◌then◌else◌}

-- `negsuc n` is -(n + 1).
pub data ℤ : Type 0 where
  pos : ℕ → ℤ
  negsuc : ℕ → ℤ

abbrev pub pos_part : ℤ → ℕ
pos_part (pos n) = n
pos_part (negsuc n) = 0

abbrev pub neg_part : ℤ → ℕ
neg_part (pos n) = 0
neg_part (negsuc n) = suc n

-- a - b, as an integer.
abbrev pub sub_ℕ : ℕ → ℕ → ℤ
sub_ℕ a b = if leb b a then pos (a - b) else negsuc (b - a - 1)

-- The i32 whose bit pattern is `w % 2 ^ 32`.
abbrev pub i32_of_bits : ℕ → ℤ
i32_of_bits w =
    if ltb (w % 2 ^ 32) (2 ^ 31) then pos (w % 2 ^ 32) else negsuc (2 ^ 32 - w % 2 ^ 32 - 1)

-- The bit pattern of an integer, modulo 2 ^ 32.
abbrev pub bits_of_ℤ : ℤ → ℕ
bits_of_ℤ (pos n) = n % 2 ^ 32
bits_of_ℤ (negsuc n) = 2 ^ 32 - 1 - n % 2 ^ 32

-- i32 addition, multiplication and negation wrap.
abbrev pub add_i32 : ℤ → ℤ → ℤ
add_i32 a b = i32_of_bits (bits_of_ℤ a + bits_of_ℤ b)

abbrev pub mul_i32 : ℤ → ℤ → ℤ
mul_i32 a b = i32_of_bits (bits_of_ℤ a * bits_of_ℤ b)

abbrev pub neg_i32 : ℤ → ℤ
neg_i32 a = i32_of_bits (2 ^ 32 - bits_of_ℤ a)
