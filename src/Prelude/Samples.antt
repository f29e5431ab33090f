-- ===== src/Prelude/Samples.antt =====
-- Floats for the tests: whole numbers.
use Prim.Native.Nat.{ℕ, ◌+◌, ◌-◌, ◌*◌, ◌/◌}
use mathlib.Core.Bool.{true}
use mathlib.Core.Option.{some}
use microlens_recsys_mvp.Prelude.Tests.{ltb, leb, ◌==◌}
use microlens_recsys_mvp.Prelude.Floats.{Floats}

abbrev pub whole : Floats
whole = record {
  Float = ℕ;
  isfinite = λ _. true;
  lt = λ a b. ltb a b;
  le = λ a b. leb a b;
  eq = λ a b. a == b;
  of_int = λ n. n;
  of_decimal = λ m d. 0;
  add = λ a b. a + b;
  sub = λ a b. a - b;
  mul = λ a b. a * b;
  div = λ a b. a / b;
  square = λ a. some (a * a);
  sqrt = λ a. a;
}
