-- ===== src/Prelude/Floats.antt =====
-- Python's floats: a type with the operations that the program uses.
use Prim.Native.Nat.{ℕ}
use mathlib.Core.Bool.{Bool}
use mathlib.Core.Option.{Option}

pub record Floats : Type 1 where
  pub Float : Type 0
  pub isfinite : Float → Bool
  pub lt : Float → Float → Bool
  pub le : Float → Float → Bool
  pub eq : Float → Float → Bool
  pub of_int : ℕ → Float
  -- `of_decimal m d` is the literal with digits `m`, `d` of them after the point.
  pub of_decimal : ℕ → ℕ → Float
  pub add : Float → Float → Float
  pub sub : Float → Float → Float
  pub mul : Float → Float → Float
  pub div : Float → Float → Float
  -- `** 2`: `none` stands for an OverflowError.
  pub square : Float → Option Float
  pub sqrt : Float → Float
