-- ===== src/Prelude/Int.antt =====
-- Signed machine integers as integers, over the native numbers.
use Prim.Native.Nat.{ℕ, suc, ◌*◌, ◌/◌}

-- `negsuc n` is -(n + 1).
pub data ℤ : Type 0 where
  pos : ℕ → ℤ
  negsuc : ℕ → ℤ

-- Go's `n / d` for a positive divisor rounds towards zero.
unfoldable pub quotient : ℤ → ℕ → ℤ
quotient (pos n) d = pos (n / d)
quotient (negsuc n) d = neg (suc n / d)
  where
    neg : ℕ → ℤ
    neg = elim [ Prim.Native.Nat.zero ↦ pos 0 | suc m ↦ negsuc m ]
