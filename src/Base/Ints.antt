-- ===== src/Base/Ints.antt =====
-- The `int` results and scores of the sources, over native numbers.
use Prim.Native.Nat.{ℕ}
use mathlib.Core.Bool.{Bool, true, false}
use mathlib.Core.Path.{◌≡◌}
use native.Mathlib.Omega.{arith}
use kavak.Base.Tests.{ltb}

pub data ℤ : Type 0 where
  pos negsuc : ℕ → ℤ

-- `x < y`
abbrev pub int_lt : ℤ → ℤ → Bool
int_lt (pos a) (pos b) = ltb a b
int_lt (pos a) (negsuc b) = false
int_lt (negsuc a) (pos b) = true
int_lt (negsuc a) (negsuc b) = ltb b a

-- `x >= 0`
abbrev pub nonneg : ℤ → Bool
nonneg (pos a) = true
nonneg (negsuc a) = false

pub int_lt_trans : (x y z : ℤ) → int_lt x y ≡ true → int_lt y z ≡ true → int_lt x z ≡ true
int_lt_trans (pos a) (pos b) (pos c) h k = ground arith
int_lt_trans (pos a) (pos b) (negsuc c) h k = ground arith
int_lt_trans (pos a) (negsuc b) (pos c) h k = ground arith
int_lt_trans (pos a) (negsuc b) (negsuc c) h k = ground arith
int_lt_trans (negsuc a) (pos b) (pos c) h k = ground arith
int_lt_trans (negsuc a) (pos b) (negsuc c) h k = ground arith
int_lt_trans (negsuc a) (negsuc b) (pos c) h k = ground arith
int_lt_trans (negsuc a) (negsuc b) (negsuc c) h k = ground arith

-- `x <= y` and `y < z` give `x < z`
pub int_le_lt_trans : (x y z : ℤ) → int_lt y x ≡ false → int_lt y z ≡ true → int_lt x z ≡ true
int_le_lt_trans (pos a) (pos b) (pos c) h k = ground arith
int_le_lt_trans (pos a) (pos b) (negsuc c) h k = ground arith
int_le_lt_trans (pos a) (negsuc b) (pos c) h k = ground arith
int_le_lt_trans (pos a) (negsuc b) (negsuc c) h k = ground arith
int_le_lt_trans (negsuc a) (pos b) (pos c) h k = ground arith
int_le_lt_trans (negsuc a) (pos b) (negsuc c) h k = ground arith
int_le_lt_trans (negsuc a) (negsuc b) (pos c) h k = ground arith
int_le_lt_trans (negsuc a) (negsuc b) (negsuc c) h k = ground arith

-- a negative number is below one that is not
pub int_lt-nonneg : (x y : ℤ) → nonneg x ≡ false → nonneg y ≡ true → int_lt x y ≡ true
int_lt-nonneg (pos a) (pos b) h k = ground arith
int_lt-nonneg (pos a) (negsuc b) h k = ground arith
int_lt-nonneg (negsuc a) (pos b) h k = ground arith
int_lt-nonneg (negsuc a) (negsuc b) h k = ground arith

pub int_lt_asym : (x y : ℤ) → int_lt x y ≡ true → int_lt y x ≡ false
int_lt_asym (pos a) (pos b) h = ground arith
int_lt_asym (pos a) (negsuc b) h = ground arith
int_lt_asym (negsuc a) (pos b) h = ground arith
int_lt_asym (negsuc a) (negsuc b) h = ground arith
