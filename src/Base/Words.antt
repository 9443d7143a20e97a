-- ===== src/Base/Words.antt =====
-- Signed integers, and the two's complement reading of machine words.
use Prim.Native.Nat.{ℕ, ◌-◌, ◌%◌, ◌^◌, ◌<◌}
use mathlib.Core.Path.{◌≡◌}
use native.Mathlib.Omega.{arith}
use nballerina_cpp.Base.Tests.{ltb, if◌then◌else◌}

-- `negsuc n` is -(n + 1).
pub data ℤ : Type 0 where
  pos : ℕ → ℤ
  negsuc : ℕ → ℤ

-- The number that a pattern of 32 bits stands for; higher bits are dropped, as a narrowing cast does.
unfoldable pub int32 : ℕ → ℤ
int32 x = let w = x % 2 ^ 32 in if ltb w (2 ^ 31) then pos w else negsuc (2 ^ 32 - 1 - w)

unfoldable pub int64 : ℕ → ℤ
int64 x = let w = x % 2 ^ 64 in if ltb w (2 ^ 63) then pos w else negsuc (2 ^ 64 - 1 - w)

unfoldable pub int16 : ℕ → ℤ
int16 x = let w = x % 2 ^ 16 in if ltb w (2 ^ 15) then pos w else negsuc (2 ^ 16 - 1 - w)

-- The pattern of 64 bits of an integer, and the cast of an `int64_t` to `int32_t`.
unfoldable pub bits64 : ℤ → ℕ
bits64 (pos n) = n % 2 ^ 64
bits64 (negsuc n) = 2 ^ 64 - 1 - n % 2 ^ 64

unfoldable pub narrow32 : ℤ → ℤ
unfolding bits64
narrow32 v = int32 (bits64 v)

pub int32_small : (x : ℕ) → x < 2 ^ 31 → int32 x ≡ pos x
unfolding int32
int32_small x h = ground arith

pub int64_small : (x : ℕ) → x < 2 ^ 63 → int64 x ≡ pos x
unfolding int64
int64_small x h = ground arith

pub narrow32-int64 : (x : ℕ) → narrow32 (int64 x) ≡ int32 x
unfolding narrow32 int64 int32
narrow32-int64 x = ground arith

pub int32-mod : (x : ℕ) → int32 (x % 2 ^ 32) ≡ int32 x
unfolding int32
int32-mod x = ground arith

pub int64-mod : (x : ℕ) → int64 (x % 2 ^ 64) ≡ int64 x
unfolding int64
int64-mod x = ground arith

pub bits64-int64 : (x : ℕ) → bits64 (int64 x) % 2 ^ 32 ≡ x % 2 ^ 32
unfolding bits64 int64
bits64-int64 x = ground arith
