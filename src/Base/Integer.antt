-- ===== src/Base/Integer.antt =====
-- Go's signed `int`, where a value may be below zero.
use Prim.Native.Nat.{ℕ}
use mathlib.Core.Bool.{Bool, false}
use packetd.Base.Tests.{◌==◌}

-- `negsuc n` is -(n + 1).
pub data ℤ : Type 0 where
  pos : ℕ → ℤ
  negsuc : ℕ → ℤ

-- The comparison of an `int` with a counter that starts at zero.
abbrev pub equals_ℕ : ℤ → ℕ → Bool
equals_ℕ (pos n) m = n == m
equals_ℕ (negsuc n) m = false
