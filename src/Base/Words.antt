-- ===== src/Base/Words.antt =====
-- Machine words as native numbers that wrap, and the signed results of system calls.
use Prim.Native.Nat.{ℕ, suc, ◌-◌, ◌%◌, ◌^◌, bit_and}
use mathlib.Core.Bool.{Bool, true, false, not}
use uring_perf.Base.Tests.{◌==◌, ltb}

abbrev pub u8 : ℕ → ℕ
u8 n = n % 2 ^ 8

abbrev pub u16 : ℕ → ℕ
u16 n = n % 2 ^ 16

abbrev pub u32 : ℕ → ℕ
u32 n = n % 2 ^ 32

abbrev pub u64 : ℕ → ℕ
u64 n = n % 2 ^ 64

-- An `int` or `ssize_t`; `negsuc n` is -(n + 1).
pub data ℤ : Type 0 where
  pos : ℕ → ℤ
  negsuc : ℕ → ℤ

-- r > 0
abbrev pub is_positive : ℤ → Bool
is_positive (pos n) = ltb 0 n
is_positive (negsuc n) = false

-- r < 0
abbrev pub is_negative : ℤ → Bool
is_negative (pos n) = false
is_negative (negsuc n) = true

-- r == -e, for an error number e
abbrev pub is_errno : ℤ → ℕ → Bool
is_errno (pos n) e = false
is_errno (negsuc n) e = suc n == e

-- The conversion to an unsigned word, where the number is not negative.
abbrev pub to_unsigned : ℤ → ℕ
to_unsigned (pos n) = n
to_unsigned (negsuc n) = 2 ^ 64 - suc n

-- flags & mask, as a condition
abbrev pub has_flag : ℕ → ℕ → Bool
has_flag flags mask = not (bit_and flags mask == 0)
