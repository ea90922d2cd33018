-- ===== src/Builtins.antt =====
-- What the code takes from Python's runtime: floats and their order, decimal literals, and the
-- texts of values. Nothing is assumed of them here; where a property needs a law of the order,
-- it says so.
use research_orchestrator.Prelude.{ℕ, String, Bool, Option}
use research_orchestrator.Sweep.{Value}

pub record Builtins : Type 1 where
  pub F : Type 0
  -- x < y and x <= y
  pub lt : F → F → Bool
  pub le : F → F → Bool
  -- the literal mantissa / 10 ^ exponent
  pub literal : (mantissa exponent : ℕ) → F
  -- f"{x:.2f}"
  pub show_float2 : F → String
  -- str(n)
  pub show_int : ℕ → String
  -- str(v) of a JSON scalar
  pub str_value : Value → String
  -- float(s) of a text, truncated: whether it is negative, and the magnitude
  pub parse_float : String → Option (Bool × ℕ)
  -- s.upper()
  pub upper : String → String
