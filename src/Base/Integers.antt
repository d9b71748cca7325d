-- ===== src/Base/Integers.antt =====
-- The integers of an int that may be negative.
use Prim.Native.Nat.{ℕ}

pub data ℤ : Type 0 where
  pos : ℕ → ℤ
  negsuc : ℕ → ℤ
