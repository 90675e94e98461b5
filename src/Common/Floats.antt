-- ===== src/Common/Floats.antt =====
-- Go's `float64`, of which the kernel has no model: the operations that the program uses, and the
-- laws of IEEE 754 that the theorems rest on, for values that are not NaN (where they are used, the
-- settings are read from JSON, which has no NaN, and the divisors are positive integers).
use Prim.Native.Nat.{ℕ, suc, ◌+◌, ◌*◌, ◌/◌, ◌^◌}
use mathlib.Core.Path.{◌≡◌}
use mathlib.Core.Bool.{Bool, not}
use native.Mathlib.Omega.{arith}
use lurus_unica.Common.Tests.{leb, ltb}
use lurus_unica.Common.Int.{ℤ, pos, pos_part}

pub record Floats : Type 1 where
  pub Float : Type 0
  -- `float64(n)` for n ≥ 0, and the literal `mantissa / 10 ^ scale`.
  pub of_int : ℕ → Float
  pub decimal : ℕ → ℕ → Float
  -- `float64(n)` of a signed number, and `int64(x)`.
  pub of_signed : ℤ → Float
  pub to_int : Float → ℤ
  pub add : Float → Float → Float
  pub mul : Float → Float → Float
  pub div : Float → Float → Float
  pub le : Float → Float → Bool
  pub lt : Float → Float → Bool
  pub lt_not_le : (a b : Float) → lt a b ≡ not (le b a)
  pub zero-div : (n : ℕ) → div (of_int 0) (of_int (suc n)) ≡ of_int 0

pub ltb-not-leb : (a b : ℕ) → ltb a b ≡ not (leb b a)
ltb-not-leb a b = ground arith

pub zero-div_fixed : (n : ℕ) → 0 * 1000 * 1000 / (suc n * 1000) ≡ 0
zero-div_fixed n = grind arith

-- Thousandths from zero on, a type of numbers that satisfies the laws, for tests.
abbrev pub fixed : Floats
fixed = record {
  Float = ℕ;
  of_int = λ n. n * 1000;
  decimal = λ m s. m * 1000 / 10 ^ s;
  of_signed = λ n. pos_part n * 1000;
  to_int = λ a. pos (a / 1000);
  add = λ a b. a + b;
  mul = λ a b. a * b / 1000;
  div = λ a b. a * 1000 / b;
  le = leb;
  lt = ltb;
  lt_not_le = ltb-not-leb;
  zero-div = zero-div_fixed;
}
