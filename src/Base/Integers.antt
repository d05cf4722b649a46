-- ===== src/Base/Integers.antt =====
-- Signed numbers over the native natural numbers.
use Prim.Native.Nat.{ℕ, suc, ◌+◌, ◌-◌}

pub data ℤ : Type 0 where
  pos : ℕ → ℤ
  negsuc : ℕ → ℤ

-- A number is the difference of its two parts, one of which is 0.
abbrev pub plus_part : ℤ → ℕ
plus_part (pos a) = a
plus_part (negsuc a) = 0

abbrev pub minus_part : ℤ → ℕ
minus_part (pos a) = 0
minus_part (negsuc a) = suc a

-- `Math.abs`
abbrev pub abs : ℤ → ℕ
abs (pos a) = a
abs (negsuc a) = suc a

-- `Math.abs` of a difference.
abbrev pub distance : ℤ → ℤ → ℕ
distance (pos a) (pos b) = (a - b) + (b - a)
distance (pos a) (negsuc b) = a + suc b
distance (negsuc a) (pos b) = suc a + b
distance (negsuc a) (negsuc b) = (a - b) + (b - a)
