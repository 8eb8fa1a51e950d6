-- ===== src/Base/Int.antt =====
-- Signed integers over the native numbers, and Go's 64-bit arithmetic on them.
use Prim.Native.Nat.{ℕ, suc, ◌-◌, ◌*◌, ◌%◌, ◌^◌, ◌<◌}
use mathlib.Core.Bool.{Bool, true, false}
use mathlib.Core.Path.{◌≡◌}
use native.Mathlib.Omega.{arith}
use qr_domofon.Base.Tests.{ltb, if◌then◌else◌}

-- `negsuc n` is -(n + 1).
pub data ℤ : Type 0 where
  pos : ℕ → ℤ
  negsuc : ℕ → ℤ

-- The two's complement bit pattern of an integer, cut to 64 bits.
abbrev pub bits_64 : ℤ → ℕ
bits_64 (pos n) = n % 2 ^ 64
bits_64 (negsuc n) = 2 ^ 64 - 1 - n % 2 ^ 64

-- The int64 that a bit pattern stands for.
abbrev pub of_bits_64 : ℕ → ℤ
of_bits_64 m = if ltb m (2 ^ 63) then pos m else negsuc (2 ^ 64 - 1 - m)

-- `z * k` for a positive constant k, before it is cut to 64 bits.
abbrev pub scale : ℕ → ℤ → ℤ
scale k (pos n) = pos (n * k)
scale k (negsuc n) = negsuc (suc n * k - 1)

-- `a * k` on int64.
unfoldable pub mul_64 : ℕ → ℤ → ℤ
mul_64 k z = of_bits_64 (bits_64 (scale k z))

-- `-a` on int64: the least int64 is its own negation.
unfoldable pub neg_64 : ℤ → ℤ
neg_64 z = of_bits_64 ((2 ^ 64 - bits_64 z) % 2 ^ 64)

abbrev pub is_negative : ℤ → Bool
is_negative (pos n) = false
is_negative (negsuc n) = true

-- `z > k` for a constant k.
abbrev pub exceeds : ℤ → ℕ → Bool
exceeds (pos n) k = ltb k n
exceeds (negsuc n) k = false

-- The negation of a negative int64.
pub neg_64_lem :
    (n : ℕ)
    → (suc n < 2 ^ 63 → neg_64 (negsuc n) ≡ pos (suc n))
      × (suc n ≡ 2 ^ 63 → neg_64 (negsuc n) ≡ negsuc n)
unfolding neg_64
neg_64_lem n = (λ h. ground arith, λ h. ground arith)

-- A product that fits in an int64 is exact.
pub mul_64_exact : (k n : ℕ) → n * k < 2 ^ 63 → mul_64 k (pos n) ≡ pos (n * k)
unfolding mul_64
mul_64_exact k n h = ground arith
