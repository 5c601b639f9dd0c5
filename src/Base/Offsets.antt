-- ===== src/Base/Offsets.antt =====
-- Signed steps from a natural number, which is all the integer arithmetic that the code does.
use Prim.Native.Nat.{ℕ, suc, ◌+◌, ◌-◌}

-- `negsuc n` is -(n + 1).
pub data ℤ : Type 0 where
  pos : ℕ → ℤ
  negsuc : ℕ → ℤ

-- `Math.max(0, start + delta)`
abbrev pub max_zero_add : ℕ → ℤ → ℕ
max_zero_add start (pos n) = start + n
max_zero_add start (negsuc n) = start - suc n
