-- ===== src/Base/Int.antt =====
-- Go's `int` as far as the program tests it: a sign and a size. The program computes with none of
-- the values kept here, so nothing wraps.
use Prim.Native.Nat.{ℕ}
use mathlib.Core.Path.{◌≡◌}
use mathlib.Core.Bool.{Bool, true, false}
use native.Mathlib.Omega.{arith}
use oakestra_net.Base.Tests.{◌==◌}

-- `negsuc n` is -(n + 1).
pub data ℤ : Type 0 where
  pos : ℕ → ℤ
  negsuc : ℕ → ℤ

-- `i < 0`.
abbrev pub is_neg : ℤ → Bool
is_neg (pos n) = false
is_neg (negsuc n) = true

-- `a == b`.
infix 50 ◌==ℤ◌
abbrev pub ◌==ℤ◌ : ℤ → ℤ → Bool
pos a ==ℤ pos b = a == b
pos a ==ℤ negsuc b = false
negsuc a ==ℤ pos b = false
negsuc a ==ℤ negsuc b = a == b

pub ==ℤ_sound : (a b : ℤ) → (a ==ℤ b) ≡ true → a ≡ b
==ℤ_sound (pos a) (pos b) h = ground arith
==ℤ_sound (pos a) (negsuc b) h = cc
==ℤ_sound (negsuc a) (pos b) h = cc
==ℤ_sound (negsuc a) (negsuc b) h = ground arith

pub ==ℤ_refl : (a : ℤ) → (a ==ℤ a) ≡ true
==ℤ_refl (pos a) = ground arith
==ℤ_refl (negsuc a) = ground arith

pub ==ℤ_complete : (a b : ℤ) → a ≡ b → (a ==ℤ b) ≡ true
==ℤ_complete a b e = rw e (==ℤ_refl b)
