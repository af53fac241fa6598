-- ===== src/Prelude/Floats.antt =====
-- Python's `float`, which antt does not have: a type with the operations that the kit calls and
-- the one law of IEEE comparison that it relies on.
use Prim.Native.Nat.{ℕ, ◌*◌, ◌^◌}
use mathlib.Core.Path.{◌≡◌}
use mathlib.Core.Bool.{Bool, false}
use mathlib.Core.Option.{Option, some}
use native.Mathlib.Omega.{arith}
use datasource_kit.Prelude.Tests.{ltb, leb}

pub record Floats : Type 1 where
  pub Float : Type 0
  -- the literals 0.0 and 1
  pub f_zero : Float
  pub f_one : Float
  -- x < y and x <= y
  pub f_lt : Float → Float → Bool
  pub f_le : Float → Float → Bool
  -- x * y
  pub f_mul : Float → Float → Float
  -- x * n for an int n; `none` is OverflowError (the int does not fit a float)
  pub f_mul_int : Float → ℕ → Option Float
  -- x ** n for an int n; `none` is OverflowError
  pub f_pow : Float → ℕ → Option Float
  pub f_lt_irrefl : (x : Float) → f_lt x x ≡ false

pub ltb_irrefl : (n : ℕ) → ltb n n ≡ false
ltb_irrefl n = ground arith

-- Exact whole ticks: a concrete model of the interface, on which examples run.
abbrev pub ticks : Floats
ticks = record {
  Float = ℕ;
  f_zero = 0;
  f_one = 1;
  f_lt = ltb;
  f_le = leb;
  f_mul = λ x y. x * y;
  f_mul_int = λ x n. some (x * n);
  f_pow = λ x n. some (x ^ n);
  f_lt_irrefl = ltb_irrefl;
}
