-- ===== src/Prelude/Signed.antt =====
-- A signed argument of the program, such as an `int32` size: its value as an integer.
use Prim.Native.Nat.{ℕ}

-- `negsuc n` is -(n + 1).
pub data ℤ : Type 0 where
  pos : ℕ → ℤ
  negsuc : ℕ → ℤ
