-- ===== src/Prelude/Numbers.antt =====
-- Integers, and the doubles: every finite double is a whole number of units of 2^-1074.
use Prim.Native.Nat.{ℕ}
use mathlib.Core.Bool.{Bool, true, false}
use writ_ai.Prelude.Tests.{ltb, eqb}

-- `negsuc n` is -(n + 1).
pub data ℤ : Type 0 where
  pos : ℕ → ℤ
  negsuc : ℕ → ℤ

abbrev pub eqℤ : ℤ → ℤ → Bool
eqℤ (pos m) (pos n) = eqb m n
eqℤ (negsuc m) (negsuc n) = eqb m n
eqℤ _ _ = false

abbrev pub ltℤ : ℤ → ℤ → Bool
ltℤ (pos m) (pos n) = ltb m n
ltℤ (pos m) (negsuc n) = false
ltℤ (negsuc m) (pos n) = true
ltℤ (negsuc m) (negsuc n) = ltb n m

-- `float`: `finite k` is k * 2^-1074.
pub data Float : Type 0 where
  nan inf neg_inf : Float
  finite : ℤ → Float

-- `x < y`
abbrev pub lt_float : Float → Float → Bool
lt_float nan _ = false
lt_float inf _ = false
lt_float neg_inf nan = false
lt_float neg_inf neg_inf = false
lt_float neg_inf inf = true
lt_float neg_inf (finite n) = true
lt_float (finite m) inf = true
lt_float (finite m) (finite n) = ltℤ m n
lt_float (finite m) nan = false
lt_float (finite m) neg_inf = false
