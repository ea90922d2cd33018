-- ===== src/Rebalance/Notional.antt =====
-- services/rebalance.py: `_check_min_notional`.
use research_orchestrator.Prelude.{
  ℕ, String, Bool, not, ◌||◌, List, [], ◌∷◌, ◌++◌, Option, none, some, if◌then◌else◌,
}
use research_orchestrator.Prelude.Dict.{Dict, lookup}
use research_orchestrator.Numbers.{Numbers}

-- a row of account_strategy
pub record AccountStrategy (F : Type 0) : Type 0 where
  pub account_strategy_id : ℕ
  pub account_id : String
  pub strategy_code : String
  pub symbol : String
  pub capital_allocation_pct : F
  pub portfolio_weight : F
  pub weight_source : String
  pub weight_updated_at : ℕ
  pub enabled : Bool
  pub is_deleted : Bool
  pub simulated : Bool

pub record Violation (F : Type 0) : Type 0 where
  pub strategy_code : String
  pub symbol : String
  pub weight : F
  pub capital_allocation_pct : F
  pub kelly_multiplier : F
  pub projected_entry_usd : F
  pub floor_usd : F
  pub shortfall_usd : F
  pub reason : Option String

module _ (n : Numbers) where
  open n use {F, lt, le, sub, mul, div, literal, round, is_finite}

  -- EFFECTIVE_MIN_NOTIONAL_USD
  abbrev pub effective_min_notional_usd : F
  effective_min_notional_usd = mul (literal 70 1) (literal 12 1)

  -- what the guard uses of the Kelly multipliers: those read for the rows' ids
  abbrev pub Kelly : Type 0
  Kelly = ℕ → Option F

  unfoldable pub or_one : Option F → F
  or_one none = literal 1 0
  or_one (some k) = k

  unfoldable pub non_positive : AccountStrategy F → (weight kelly : F) → Violation F
  non_positive r weight kelly = record {
    strategy_code = r.strategy_code;
    symbol = r.symbol;
    weight = weight;
    capital_allocation_pct = r.capital_allocation_pct;
    kelly_multiplier = kelly;
    projected_entry_usd = literal 0 0;
    floor_usd = effective_min_notional_usd;
    shortfall_usd = effective_min_notional_usd;
    reason = some "non_positive_equity";
  }

  -- not math.isfinite(kelly) or kelly <= 0
  unfoldable pub usable_kelly : F → F
  usable_kelly kelly =
      if not (is_finite kelly) || le kelly (literal 0 0) then literal 1 0 else kelly

  unfoldable pub projected : (available weight kelly : F) → AccountStrategy F → F
  projected available weight kelly r =
      mul (mul (mul available (div r.capital_allocation_pct (literal 100 0))) kelly) weight

  unfoldable pub below_floor : (weight kelly entry : F) → AccountStrategy F → Violation F
  below_floor weight kelly entry r = record {
    strategy_code = r.strategy_code;
    symbol = r.symbol;
    weight = round weight 5;
    capital_allocation_pct = r.capital_allocation_pct;
    kelly_multiplier = round kelly 5;
    projected_entry_usd = round entry 2;
    floor_usd = effective_min_notional_usd;
    shortfall_usd = round (sub effective_min_notional_usd entry) 2;
    reason = none;
  }

  -- no equity at all: every weighted row is a violation
  unfoldable pub flagged : Dict F → Kelly → AccountStrategy F → Option F → List (Violation F)
  flagged weights kelly r none = []
  flagged weights kelly r (some w) = non_positive r w (or_one (kelly r.account_strategy_id)) ∷ []

  unfoldable pub checked :
      (available : F) → Kelly → AccountStrategy F → Option F → List (Violation F)
  checked available kelly r none = []
  checked available kelly r (some w) =
      let k = usable_kelly (or_one (kelly r.account_strategy_id)) in
      let entry = projected available w k r in
      if not (is_finite w) || le w (literal 0 0)
      then []
      else if le r.capital_allocation_pct (literal 0 0)
      then []
      else if lt entry effective_min_notional_usd
      then below_floor w k entry r ∷ []
      else []

  unfoldable pub check_row :
      (weights : Dict F) (available : F) → Kelly → AccountStrategy F → List (Violation F)
  check_row weights available kelly r =
      if le available (literal 0 0) || not (is_finite available)
      then flagged weights kelly r (lookup r.strategy_code weights)
      else checked available kelly r (lookup r.strategy_code weights)

  unfoldable pub check_min_notional :
      List (AccountStrategy F) → (weights : Dict F) (available : F) → Kelly → List (Violation F)
  check_min_notional [] weights available kelly = []
  check_min_notional (r ∷ rows) weights available kelly =
      check_row weights available kelly r ++ check_min_notional rows weights available kelly
