-- ===== src/Base/Int.antt =====
-- The C type `int` where a value may be negative: an identifier, an index or -1.
use Prim.Native.Nat.{ℕ}

-- `negsuc n` is -(n + 1).
pub data ℤ : Type 0 where
  pos : ℕ → ℤ
  negsuc : ℕ → ℤ
