-- ===== src/Prelude/Integers.antt =====
-- Whole numbers that may be below zero.
use Prim.Native.Nat.{ℕ, ◌-◌}
use hunger_platform.Prelude.Tests.{leb, if◌then◌else◌}

pub data ℤ : Type 0 where
  pos negsuc : ℕ → ℤ

-- `a - b`
unfoldable pub difference : ℕ → ℕ → ℤ
difference a b = if leb b a then pos (a - b) else negsuc (b - a - 1)
