-- ===== src/Rebalance/Book.antt =====
-- services/rebalance.py: `rebalance_book` on the table account_strategy and the journal.
use research_orchestrator.Prelude.{
  ℕ, ◌+◌, String, Bool, true, false, not, ◌&&◌, ◌||◌, List, [], ◌∷◌, ◌++◌, Option, none, some,
  if◌then◌else◌, any, length, leb, ◌==◌, map, select, str_eq,
}
use research_orchestrator.Prelude.Dict.{Dict, lookup}
use research_orchestrator.Prelude.Sorting.{sort_descending}
use research_orchestrator.Numbers.{Numbers}
use research_orchestrator.Rebalance.Guardrails.{apply_guardrails}
use research_orchestrator.Rebalance.Notional.{AccountStrategy, Violation, Kelly, check_min_notional}

pub data Optimizer : Type 0 where
  hrp equal mean_variance : Optimizer

-- the text that is written to weight_source
unfoldable pub name_of : Optimizer → String
name_of hrp = "HRP"
name_of equal = "EQUAL_WEIGHT"
name_of mean_variance = "MEAN_VARIANCE"

-- the journal row of a rebalance, without its texts
pub record Entry : Type 0 where
  pub optimizer : Optimizer
  pub dry_run : Bool
  pub blocked : Bool
  pub n_updated : ℕ

pub data Answer (F : Type 0) : Type 0 where
  nothing_eligible : Answer F
  below_min_notional_floor : List (Violation F) → Answer F
  done : (applied : Bool) (n_updated : ℕ) (weights_after : Dict F) → Answer F

-- The rows and the journal after a rebalance, and what it answers.
pub record Outcome (F : Type 0) : Type 0 where
  pub rows : List (AccountStrategy F)
  pub journal : List Entry
  pub answer : Answer F

pub record Request (F : Type 0) : Type 0 where
  pub account_id : String
  pub available_usdt : F
  pub optimizer : Optimizer
  pub strategy_codes : List String
  pub dry_run : Bool

-- What a rebalance reads from elsewhere: the free balance of the trading JVM (`none` without a
-- client, or when the read fails) and its Kelly multipliers, how many days of returns the newest
-- backtest of a strategy has, the weights of the numpy optimisers, and the time.
pub record Reads (n : Numbers) : Type 0 where
  pub available : Option n.F
  pub kelly : Kelly n
  pub observations : String → Option ℕ
  pub optimised : Optimizer → List String → Dict n.F
  pub now : ℕ

unfoldable pub mem : String → List String → Bool
mem s texts = any (λ t. str_eq t s) texts

-- the WHERE clause of `_fetch_target_account_strategies`
unfoldable pub is_target : {F : Type 0} → List String → String → AccountStrategy F → Bool
is_target codes account_id r =
    mem r.strategy_code codes
    && str_eq r.account_id account_id
    && r.enabled
    && not r.is_deleted
    && not r.simulated
    && not (str_eq r.weight_source "MANUAL")

-- len(series) >= MIN_OBS_FOR_REBALANCE
unfoldable pub has_history : Option ℕ → Bool
has_history none = false
has_history (some days) = leb 30 days

-- sorted({...}): without repetition
unfoldable pub distinct : List String → List String
distinct [] = []
distinct (s ∷ texts) = let rest = distinct texts in if mem s rest then rest else s ∷ rest

module _ (n : Numbers) where
  open n use {F, lt, div, of_int, literal, round, is_finite, str_lt}

  unfoldable pub eligible_codes : (String → Option ℕ) → List (AccountStrategy F) → List String
  eligible_codes observations rows =
      select (λ c. has_history (observations c))
        (sort_descending (λ s t. str_lt t s) (distinct (map (λ r. r.strategy_code) rows)))

  unfoldable pub equal_weight : List String → Dict F
  equal_weight codes = map (λ c. (c, div (literal 1 0) (of_int (length codes)))) codes

  unfoldable pub raw_weights : Reads n → Optimizer → List String → Dict F
  raw_weights reads optimizer [] = []
  raw_weights reads optimizer (c ∷ []) = (c, literal 1 0) ∷ []
  raw_weights reads equal codes = equal_weight codes
  raw_weights reads optimizer codes = reads.optimised optimizer codes

  -- the balance of the guard, and whether it is the JVM's
  unfoldable pub balance_of : (caller : F) → Option F → F × Bool
  balance_of caller none = (caller, false)
  balance_of caller (some jvm) =
      if not (is_finite jvm) || lt jvm (literal 0 0) then (caller, false) else (jvm, true)

  -- the multipliers are read only with a balance of the JVM above 0
  unfoldable pub kelly_of : Reads n → F × Bool → Kelly n
  kelly_of reads balance id =
      if balance.1 && lt (literal 0 0) balance.0 then reads.kelly id else none

  unfoldable pub reweighted : F → Optimizer → (now : ℕ) → AccountStrategy F → AccountStrategy F
  reweighted w optimizer now r = record r {
    portfolio_weight = round w 5;
    weight_source = name_of optimizer;
    weight_updated_at = now;
  }

  -- UPDATE account_strategy ... WHERE account_strategy_id = id
  unfoldable pub update_weight :
      ℕ → F → Optimizer → (now : ℕ) → List (AccountStrategy F) → List (AccountStrategy F)
  update_weight id w optimizer now [] = []
  update_weight id w optimizer now (r ∷ rows) =
      let rest = update_weight id w optimizer now rows in
      if r.account_strategy_id == id then reweighted w optimizer now r ∷ rest else r ∷ rest

  unfoldable pub finite : Option F → Option F
  finite none = none
  finite (some w) = if is_finite w then some w else none

  unfoldable pub write_one :
      AccountStrategy F
      → Option F
      → Optimizer
      → (now : ℕ) → List (AccountStrategy F) × ℕ
      → List (AccountStrategy F) × ℕ
  write_one r none optimizer now written = written
  write_one r (some w) optimizer now written =
      (update_weight r.account_strategy_id w optimizer now written.0, written.1 + 1)

  -- the table and the count of `_write_weights`
  unfoldable pub write_weights :
      (targets : List (AccountStrategy F))
      → Dict F
      → Optimizer
      → (now : ℕ) → List (AccountStrategy F) × ℕ
      → List (AccountStrategy F) × ℕ
  write_weights [] weights optimizer now written = written
  write_weights (r ∷ targets) weights optimizer now written =
      write_weights targets weights optimizer now
        (write_one r (finite (lookup r.strategy_code weights)) optimizer now written)

  unfoldable pub entry_of : Request F → (blocked : Bool) → ℕ → Entry
  entry_of q blocked n_updated = record {
    optimizer = q.optimizer;
    dry_run = q.dry_run;
    blocked = blocked;
    n_updated = n_updated;
  }

  -- the transaction and what follows it, by dry_run and the violations; `written` is what
  -- `_write_weights` would do
  unfoldable pub concluded :
      Request F
      → (written : List (AccountStrategy F) × ℕ) → Dict F
      → List (AccountStrategy F)
      → List Entry
      → (dry_run : Bool) → List (Violation F)
      → Outcome F
  concluded q written weights rows journal true violations = record {
    rows = rows;
    journal = journal ++ (entry_of q false 0 ∷ []);
    answer = done false 0 weights;
  }
  concluded q written weights rows journal false [] = record {
    rows = written.0;
    journal = journal ++ (entry_of q false written.1 ∷ []);
    answer = done true written.1 weights;
  }
  concluded q written weights rows journal false (v ∷ vs) = record {
    rows = rows;
    journal = journal ++ (entry_of q true 0 ∷ []);
    answer = below_min_notional_floor (v ∷ vs);
  }

  unfoldable pub with_codes :
      Request F
      → Reads n
      → (targets : List (AccountStrategy F)) (codes : List String) → List (AccountStrategy F)
      → List Entry
      → Outcome F
  with_codes q reads targets [] rows journal = record {
    rows = rows;
    journal = journal;
    answer = nothing_eligible;
  }
  with_codes q reads targets (c ∷ codes) rows journal =
      let weights = (apply_guardrails n (raw_weights reads q.optimizer (c ∷ codes))).weights in
      let eligible = select (λ r. mem r.strategy_code (c ∷ codes)) targets in
      let balance = balance_of q.available_usdt reads.available in
      concluded q (write_weights eligible weights q.optimizer reads.now (rows, 0)) weights rows
        journal q.dry_run (check_min_notional n eligible weights balance.0 (kelly_of reads balance))

  unfoldable pub rebalance_book :
      Request F → Reads n → List (AccountStrategy F) → List Entry → Outcome F
  rebalance_book q reads rows journal =
      let targets = select (is_target q.strategy_codes q.account_id) rows in
      with_codes q reads targets (eligible_codes reads.observations targets) rows journal
