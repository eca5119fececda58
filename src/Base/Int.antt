-- ===== src/Base/Int.antt =====
-- A Go `int` as the source takes it from a caller: `pos n` is n, `negsuc n` is -(n + 1).
use Prim.Native.Nat.{ℕ}

pub data ℤ : Type 0 where
  pos : ℕ → ℤ
  negsuc : ℕ → ℤ
