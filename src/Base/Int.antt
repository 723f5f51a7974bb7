-- ===== src/Base/Int.antt =====
-- Signed numbers, which the modelled code only stores; `negsuc n` is -(n + 1).
use Prim.Native.Nat.{ℕ}

pub data ℤ : Type 0 where
  pos : ℕ → ℤ
  negsuc : ℕ → ℤ
