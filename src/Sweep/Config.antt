-- ===== src/Sweep/Config.antt =====
-- The JSON object `sweep_config` that a queue row carries: the keys that the code reads.
use research_orchestrator.Prelude.{ℕ, String, Bool, Option, List}

-- A JSON scalar. A number is `mantissa / 10 ^ exponent`, with its sign.
pub data Value : Type 0 where
  null : Value
  bool : Bool → Value
  number : (negative : Bool) (mantissa exponent : ℕ) → Value
  text : String → Value

-- One entry of `params`.
pub record Param : Type 0 where
  pub name : String
  pub values : List Value

pub record SweepConfig : Type 0 where
  pub strategy : Option String
  pub params : List Param
  pub n_trials : Option ℕ
  pub track : Option String
  pub external_trials : Option Value
  pub universe : List String
  pub allow_long : Option Bool
  pub allow_short : Option Bool
  -- backtest_window.start_time
  pub start_time : Option String
