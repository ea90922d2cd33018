-- ===== src/Rebalance/Tests.antt =====
-- An account with two strategies that may be weighed, and rows that must not change.
use research_orchestrator.Prelude.Sorting.{insert_descending, sort_descending}
use research_orchestrator.Prelude.{
  select, select, ℕ, String, List, [], ◌∷◌, some, ◌≡◌, refl, true, false, map,
}
use research_orchestrator.Prelude.Dict.{insert, merge, lookup}
use research_orchestrator.Numbers.Thousandths.{thousandths}
use research_orchestrator.Rebalance.Guardrails.{
  apply_guardrails, passes, has_free, sum_weights, after_pass, passed, clamp_all, clamp,
  upper_bound, factor_of, pin, lower_bound, keep, settled, pin_rest, renormalised, scaled_all,
}
use research_orchestrator.Rebalance.Notional.{
  AccountStrategy, below_floor, flagged, non_positive, or_one, projected, usable_kelly,
  check_min_notional, check_row, checked,
}
use research_orchestrator.Rebalance.Book.{
  hrp, Request, Reads, rebalance_book, with_codes, eligible_codes, distinct, is_target, mem,
  has_history, concluded, balance_of, raw_weights, entry_of, equal_weight, finite, kelly_of,
  name_of, reweighted, update_weight, write_one, write_weights,
}
use research_orchestrator.Rebalance.Clamping.{BoundLaws}
use research_orchestrator.Rebalance.Bounds.{IsGuarded, apply_guardrails-IsGuarded}
use research_orchestrator.Rebalance.Writes.{IsAudited, rebalance_book-IsAudited}

guarded :
    (apply_guardrails thousandths (("A", 700) ∷ ("B", 200) ∷ ("C", 100) ∷ [])).weights
    ≡ ("A", 500) ∷ ("B", 333) ∷ ("C", 166) ∷ []
unfolding apply_guardrails passes has_free sum_weights after_pass passed clamp_all clamp upper_bound
    factor_of lower_bound keep pin insert settled merge scaled_all
guarded = refl

-- A weight far above the cap and three below the floor are all pinned in the first pass; their
-- sum is 0.65, and scaled to 1 the first is 0.769, above the cap of 0.50.
cap_broken :
    (apply_guardrails thousandths (("A", 900) ∷ ("B", 40) ∷ ("C", 30) ∷ ("D", 30) ∷ [])).weights
    ≡ ("A", 769) ∷ ("B", 76) ∷ ("C", 76) ∷ ("D", 76) ∷ []
unfolding apply_guardrails passes has_free sum_weights after_pass passed clamp_all clamp upper_bound
    factor_of lower_bound pin renormalised scaled_all merge insert
cap_broken = refl

thousandths-BoundLaws : BoundLaws thousandths
unfolding upper_bound lower_bound
thousandths-BoundLaws = record {
  greatest = record { not_above = refl; not_below = refl };
  least = record { not_above = refl; not_below = refl };
}

apply_guardrails-IsGuarded_example :
    IsGuarded thousandths
      (("A", 900) ∷ ("B", 40) ∷ ("C", 30) ∷ ("D", 30) ∷ [])
      (apply_guardrails thousandths (("A", 900) ∷ ("B", 40) ∷ ("C", 30) ∷ ("D", 30) ∷ []))
apply_guardrails-IsGuarded_example =
    apply_guardrails-IsGuarded thousandths thousandths-BoundLaws
      (("A", 900) ∷ ("B", 40) ∷ ("C", 30) ∷ ("D", 30) ∷ [])

abbrev row : ℕ → (account code source : String) → AccountStrategy ℕ
row id account code source = record {
  account_strategy_id = id;
  account_id = account;
  strategy_code = code;
  symbol = "BTCUSDT";
  capital_allocation_pct = 50000;
  portfolio_weight = 1000;
  weight_source = source;
  weight_updated_at = 0;
  enabled = true;
  is_deleted = false;
  simulated = false;
}

abbrev table : List (AccountStrategy ℕ)
table =
    row 1 "alice" "LSR" "EQUAL_WEIGHT"
    ∷ row 2 "bob" "LSR" "EQUAL_WEIGHT"
    ∷ row 3 "alice" "VBO" "MANUAL"
    ∷ row 4 "alice" "VCB" "HRP"
    ∷ []

abbrev request : Request ℕ
request = record {
  account_id = "alice";
  available_usdt = 900000;
  optimizer = hrp;
  strategy_codes = "LSR" ∷ "VBO" ∷ "VCB" ∷ [];
  dry_run = false;
}

abbrev reads : Reads thousandths
reads = record {
  available = some 1000000;
  kelly = λ id. some 500;
  observations = λ code. some 90;
  optimised = λ optimizer codes. ("LSR", 400) ∷ ("VCB", 600) ∷ [];
  now = 7;
}

written :
    map (λ r. r.portfolio_weight) (rebalance_book thousandths request reads table []).rows
    ≡ 500 ∷ 1000 ∷ 1000 ∷ 500 ∷ []
unfolding rebalance_book with_codes eligible_codes select sort_descending distinct is_target mem
    insert_descending has_history concluded check_min_notional check_row balance_of checked lookup
    apply_guardrails raw_weights passes has_free sum_weights after_pass passed clamp_all clamp
    upper_bound factor_of pin lower_bound keep insert settled merge entry_of equal_weight finite
    kelly_of name_of reweighted update_weight write_one write_weights pin_rest renormalised
    scaled_all below_floor flagged non_positive or_one projected usable_kelly
written = refl

rebalance_book-IsAudited_example :
    IsAudited thousandths request table [] (rebalance_book thousandths request reads table [])
rebalance_book-IsAudited_example =
    rebalance_book-IsAudited thousandths request reads table [] (refl, (refl, (refl, (refl, tt))))
