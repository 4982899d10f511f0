-- ===== src/Common/Signed.antt =====
-- The whole numbers that Python's `int` returns.
use uv_k5_v3_emulator.Common.{ℕ}

pub data ℤ : Type 0 where
  pos : ℕ → ℤ
  -- `negsuc n` is minus `n + 1`.
  negsuc : ℕ → ℤ
