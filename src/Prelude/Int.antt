-- ===== src/Prelude/Int.antt =====
-- Go's `int` and `int64` where the program only compares them; `negsuc n` is -(n + 1).
use Prim.Native.Nat.{ℕ}
use mathlib.Core.Path.{◌≡◌}
use mathlib.Core.Bool.{Bool, true, false}
use native.Mathlib.Omega.{arith}
use delegatd.Prelude.Tests.{eqb, ltb}

pub data ℤ : Type 0 where
  pos : ℕ → ℤ
  negsuc : ℕ → ℤ

abbrev pub int_eqb : ℤ → ℤ → Bool
int_eqb (pos a) (pos b) = eqb a b
int_eqb (pos a) (negsuc b) = false
int_eqb (negsuc a) (pos b) = false
int_eqb (negsuc a) (negsuc b) = eqb a b

abbrev pub int_ltb : ℤ → ℤ → Bool
int_ltb (pos a) (pos b) = ltb a b
int_ltb (pos a) (negsuc b) = false
int_ltb (negsuc a) (pos b) = true
int_ltb (negsuc a) (negsuc b) = ltb b a

-- `n > 0`
abbrev pub is_positive : ℤ → Bool
is_positive n = int_ltb (pos 0) n

pub int_eq_of_eqb : (a b : ℤ) → int_eqb a b ≡ true → a ≡ b
int_eq_of_eqb a b h = ground arith
