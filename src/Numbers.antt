-- ===== src/Numbers.antt =====
-- What the numeric services take from Python's runtime: float arithmetic, the order of floats and
-- of texts. Nothing is assumed of them here; where a property needs a law of an order, it says so.
pub mod Thousandths
use research_orchestrator.Prelude.{ℕ, String, Bool}

pub record Numbers : Type 1 where
  pub F : Type 0
  -- x < y, x <= y and x == y
  pub lt : F → F → Bool
  pub le : F → F → Bool
  pub eq : F → F → Bool
  pub add : F → F → F
  pub sub : F → F → F
  pub mul : F → F → F
  pub div : F → F → F
  -- x ** y
  pub pow : F → F → F
  -- math.isfinite(x)
  pub is_finite : F → Bool
  -- math.sqrt(x)
  pub sqrt : F → F
  -- -x
  pub negate : F → F
  -- float(n)
  pub of_int : ℕ → F
  -- the literal mantissa / 10 ^ exponent
  pub literal : (mantissa exponent : ℕ) → F
  -- round(x, n)
  pub round : F → ℕ → F
  -- s < t
  pub str_lt : String → String → Bool
