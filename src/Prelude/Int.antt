-- ===== src/Prelude/Int.antt =====
-- Integers, and the doubles that stand for them.
use loop_engine.Prelude.Tests.{leb}
use Prim.Native.Nat.{ℕ, suc, ◌+◌, ◌-◌}
use mathlib.Core.Bool.{Bool}

-- `negsuc n` is -(n + 1).
pub data ℤ : Type 0 where
  pos : ℕ → ℤ
  negsuc : ℕ → ℤ

abbrev pub pos_part : ℤ → ℕ
pos_part (pos n) = n
pos_part (negsuc n) = 0

abbrev pub neg_part : ℤ → ℕ
neg_part (pos n) = 0
neg_part (negsuc n) = suc n

-- a - b where that is positive, and 0 elsewhere: `Math.max(0, a - b)`.
unfoldable pub monus : ℤ → ℤ → ℕ
monus a b = (pos_part a + neg_part b) - (pos_part b + neg_part a)

-- a ≤ b, as a test.
unfoldable pub leb_ℤ : ℤ → ℤ → Bool
leb_ℤ a b = leb (pos_part a + neg_part b) (pos_part b + neg_part a)
