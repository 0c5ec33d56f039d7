-- ===== src/Base/Int.antt =====
-- The integers that `int` stands for, with the comparisons that the program makes.
use Prim.Native.Nat.{ℕ}
use mathlib.Core.Bool.{Bool, true, false, not}
use fcitx5_vinput.Base.Tests.{ltb}

-- `negsuc n` is -(n + 1).
pub data ℤ : Type 0 where
  pos : ℕ → ℤ
  negsuc : ℕ → ℤ

-- `a < b`
abbrev pub ltz : ℤ → ℤ → Bool
ltz (pos a) (pos b) = ltb a b
ltz (pos a) (negsuc b) = false
ltz (negsuc a) (pos b) = true
ltz (negsuc a) (negsuc b) = ltb b a

-- `a <= b`
abbrev pub lez : ℤ → ℤ → Bool
lez a b = not (ltz b a)
