-- ===== src/Common/Int.antt =====
-- The integers on native numbers, under the names of the library: `int` and `ssize_t` values.
use Prim.Native.Nat.{ℕ}
use mathlib.Core.Bool.{Bool, false}
use cpp20_coroutine_io_uring.Common.Tests.{ltb}

pub data ℤ : Type 0 where
  pos : ℕ → ℤ
  -- `negsuc n` is `- (n + 1)`.
  negsuc : ℕ → ℤ

-- `0 < n`.
abbrev pub is_positive : ℤ → Bool
is_positive (pos n) = ltb 0 n
is_positive (negsuc n) = false

-- A value that is known not to be negative, as a size.
abbrev pub to_size : ℤ → ℕ
to_size (pos n) = n
to_size (negsuc n) = 0
