-- ===== src/Numbers/Thousandths.antt =====
-- A concrete arithmetic for the tests: non-negative numbers in thousandths. Powers and roots
-- are not taken, there are no negative numbers, and texts are not told apart.
use research_orchestrator.Prelude.{ℕ, ◌+◌, ◌-◌, ◌*◌, ◌/◌, ◌^◌, true, false, arith, ltb, leb, ◌==◌}
use research_orchestrator.Prelude.Sorting.{IsKeyOrder}
use research_orchestrator.Numbers.{Numbers}

abbrev pub thousandths : Numbers
thousandths = record {
  F = ℕ;
  lt = ltb;
  le = leb;
  eq = ◌==◌;
  add = ◌+◌;
  sub = ◌-◌;
  mul = λ x y. x * y / 1000;
  div = λ x y. x * 1000 / y;
  pow = λ x y. x;
  is_finite = λ x. true;
  sqrt = λ x. x;
  negate = λ x. 0;
  of_int = λ n. n * 1000;
  literal = λ m e. m * 1000 / 10 ^ e;
  round = λ x n. x;
  str_lt = λ s t. false;
}

pub nat-IsKeyOrder : IsKeyOrder ltb ◌==◌
nat-IsKeyOrder = record {
  order = record {
    asymmetric = λ a b h. ground (arith, h);
    transitive = λ a b c h k. ground (arith, h, k);
  };
  equal = λ a b h. ground (arith, h);
  unequal = λ a b h k. ground (arith, h, k);
  symmetric = λ a b. ground arith;
}
