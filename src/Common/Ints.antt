-- ===== src/Common/Ints.antt =====
-- Signed integers, for Rust's `i32`: `negsuc n` is -(n + 1).
use Prim.Native.Nat.{ℕ}

pub data ℤ : Type 0 where
  pos : ℕ → ℤ
  negsuc : ℕ → ℤ
