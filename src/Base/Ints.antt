-- ===== src/Base/Ints.antt =====
-- The `int` of C, for arguments of which only the sign and the value count.
use Prim.Native.Nat.{ℕ}

pub data ℤ : Type 0 where
  pos : ℕ → ℤ
  negsuc : ℕ → ℤ
