-- ===== src/Common/Int.antt =====
-- Signed integers over the native numbers, and the 32-bit `int`.
use Prim.Native.Nat.{ℕ, zero, suc, ◌+◌, ◌-◌, ◌/◌, ◌%◌, ◌^◌, ◌<◌}
use mathlib.Core.Path.{◌≡◌}
use mathlib.Core.Bool.{Bool, true, false}
use native.Mathlib.Omega.{arith}
use ece344lab.Common.Tests.{ltb, ◌==◌, if◌then◌else◌}

-- `negsuc n` is -(n + 1).
pub data ℤ : Type 0 where
  pos : ℕ → ℤ
  negsuc : ℕ → ℤ

abbrev pub is_neg : ℤ → Bool
is_neg (pos n) = false
is_neg (negsuc n) = true

abbrev pub is_zero : ℤ → Bool
is_zero (pos zero) = true
is_zero (pos (suc n)) = false
is_zero (negsuc n) = false

abbrev pub is_positive : ℤ → Bool
is_positive (pos zero) = false
is_positive (pos (suc n)) = true
is_positive (negsuc n) = false

-- `z + n`
abbrev pub add_ℕ : ℤ → ℕ → ℤ
add_ℕ (pos m) n = pos (m + n)
add_ℕ (negsuc m) n = if ltb m n then pos (n - m - 1) else negsuc (m - n)

-- `z - n`, `n < z`, `z > w`, and `z / d` (C rounds towards 0).
abbrev pub sub_ℕ : ℤ → ℕ → ℤ
sub_ℕ (pos m) n = if ltb m n then negsuc (n - m - 1) else pos (m - n)
sub_ℕ (negsuc m) n = negsuc (m + n)

abbrev pub ltb_ℤ : ℕ → ℤ → Bool
ltb_ℤ n (pos m) = ltb n m
ltb_ℤ n (negsuc m) = false

abbrev pub gtb_ℤ : ℤ → ℤ → Bool
gtb_ℤ (pos m) (pos n) = ltb n m
gtb_ℤ (pos m) (negsuc n) = true
gtb_ℤ (negsuc m) (pos n) = false
gtb_ℤ (negsuc m) (negsuc n) = ltb m n

abbrev pub div_ℕ : ℤ → ℕ → ℤ
div_ℕ (pos m) d = pos (m / d)
div_ℕ (negsuc m) d = if suc m / d == 0 then pos 0 else negsuc (suc m / d - 1)

-- The bit pattern of an `int`, and the `int` of a pattern.
abbrev pub to_u32 : ℤ → ℕ
to_u32 (pos n) = n % 2 ^ 32
to_u32 (negsuc n) = 2 ^ 32 - 1 - n % 2 ^ 32

abbrev pub to_s32 : ℕ → ℤ
to_s32 u = if ltb (u % 2 ^ 32) (2 ^ 31) then pos (u % 2 ^ 32) else negsuc (2 ^ 32 - 1 - u % 2 ^ 32)

-- The same for the 64-bit `off_t`.
abbrev pub to_u64 : ℤ → ℕ
to_u64 (pos n) = n % 2 ^ 64
to_u64 (negsuc n) = 2 ^ 64 - 1 - n % 2 ^ 64

abbrev pub to_s64 : ℕ → ℤ
to_s64 u = if ltb (u % 2 ^ 64) (2 ^ 63) then pos (u % 2 ^ 64) else negsuc (2 ^ 64 - 1 - u % 2 ^ 64)

abbrev pub InS32 : ℤ → Type 0
InS32 (pos n) = n < 2 ^ 31
InS32 (negsuc n) = n < 2 ^ 31

abbrev pub InS64 : ℤ → Type 0
InS64 (pos n) = n < 2 ^ 63
InS64 (negsuc n) = n < 2 ^ 63

pub to_s32-to_u32 : (z : ℤ) → InS32 z → to_s32 (to_u32 z) ≡ z
to_s32-to_u32 (pos n) h = ground arith
to_s32-to_u32 (negsuc n) h = ground arith

pub to_s64-to_u64 : (z : ℤ) → InS64 z → to_s64 (to_u64 z) ≡ z
to_s64-to_u64 (pos n) h = ground arith
to_s64-to_u64 (negsuc n) h = ground arith

pub to_u32-lt : (z : ℤ) → to_u32 z < 2 ^ 32
to_u32-lt (pos n) = omega arith
to_u32-lt (negsuc n) = omega arith

pub to_u64-lt : (z : ℤ) → to_u64 z < 2 ^ 64
to_u64-lt (pos n) = omega arith
to_u64-lt (negsuc n) = omega arith
