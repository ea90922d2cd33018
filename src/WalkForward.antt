-- ===== src/WalkForward.antt =====
-- services/walk_forward.py: the folds of a walk-forward, what their results add up to, and the
-- stability verdict.
pub mod Dates
pub mod Folds
pub mod Verdicts
mod Tests
use research_orchestrator.Prelude.{
  ℕ, zero, suc, ◌+◌, ◌-◌, ◌*◌, max, String, Bool, true, false, not, ◌&&◌, ◌||◌, List, [], ◌∷◌, ◌++◌,
  Option, none, some, if◌then◌else◌, any, length, leb, ltb, select, is_some, str_eq,
}
use research_orchestrator.Numbers.{Numbers}
use research_orchestrator.WalkForward.Dates.{Date, date, to_ordinal, before, add_months}

-- KNOWN_BEAR_REGIMES
abbrev pub known_bear_regimes : List (Date × Date)
known_bear_regimes =
    (date 2018 1 17, date 2018 12 15)
    ∷ (date 2020 2 19, date 2020 3 23)
    ∷ (date 2021 11 10, date 2022 12 31)
    ∷ []

-- MIN_BEAR_OVERLAP_DAYS
abbrev pub min_bear_overlap_days : ℕ
min_bear_overlap_days = 45

-- max(a, b) and min(a, b) of dates
unfoldable pub latest : Date → Date → Date
latest a b = if before a b then b else a

unfoldable pub earliest : Date → Date → Date
earliest a b = if before b a then b else a

-- max(0, (hi - lo).days)
unfoldable pub overlap_days : (a_start a_end b_start b_end : Date) → ℕ
overlap_days a_start a_end b_start b_end =
    to_ordinal (earliest a_end b_end) - to_ordinal (latest a_start b_start)

unfoldable pub window_covers_bear : (full_start full_end : Date) (min_overlap_days : ℕ) → Bool
window_covers_bear full_start full_end min_overlap_days =
    any (λ bear. leb min_overlap_days (overlap_days full_start full_end bear.0 bear.1))
      known_bear_regimes

-- The months of the folds, and the window they are cut from.
pub record Layout : Type 0 where
  pub full_start : Date
  pub full_end : Date
  pub train_months : ℕ
  pub test_months : ℕ
  pub step_months : ℕ

unfoldable pub test_start : Layout → ℕ → Date
test_start l i = add_months (add_months l.full_start (i * l.step_months)) l.train_months

unfoldable pub test_end : Layout → ℕ → Date
test_end l i = add_months (test_start l i) l.test_months

-- `for i in range(n_folds)`, from `i` on with `left` passes left
unfoldable pub folds_from : Layout → (i left : ℕ) → List (Date × Date)
folds_from l i zero = []
folds_from l i (suc left) =
    let rest = folds_from l (i + 1) left in
    if before l.full_end (test_end l i) then [] else (test_start l i, test_end l i) ∷ rest

unfoldable pub build_folds : Layout → (n_folds : ℕ) → List (Date × Date)
build_folds l n_folds = folds_from l 0 n_folds

-- What the code takes of Python's `statistics`, and int(x).
pub record Statistics (F : Type 0) : Type 0 where
  pub fmean : List F → F
  pub pstdev : List F → F
  pub trunc : F → ℕ

-- the metrics of a completed fold's run
pub record Metrics (F : Type 0) : Type 0 where
  pub pf : Option F
  pub return_pct : Option F
  pub sharpe : Option F
  pub trades : Option F
  pub wr : Option F

pub record FoldResult (F : Type 0) : Type 0 where
  pub metrics : Option (Metrics F)
  pub error : Option String

pub record Stats (F : Type 0) : Type 0 where
  pub mean : F
  pub std : F
  pub least : F
  pub greatest : F

pub record Aggregate (F : Type 0) : Type 0 where
  pub n_folds_completed : ℕ
  pub pf : Option (Stats F)
  pub return_pct : Option (Stats F)
  pub sharpe : Option (Stats F)
  pub pf_positive_pct : F
  pub total_trades_across_folds : ℕ

pub data Stability : Type 0 where
  insufficient_evidence no_edge overfit inconsistent robust : Stability

-- f.get("error"), when it is not empty
unfoldable pub has_error : Option String → Bool
has_error none = false
has_error (some e) = not (str_eq e "")

module _ {F : Type 0} where
  unfoldable pub completed : FoldResult F → Bool
  completed f = is_some f.metrics && not (has_error f.error)

  -- metric_data[key].append(v) for the values that are there, here in front of the later ones
  unfoldable pub prepend : Option F → List F → List F
  prepend none rest = rest
  prepend (some v) rest = v ∷ rest

  unfoldable pub value_of : (Metrics F → Option F) → Option (Metrics F) → Option F
  value_of key none = none
  value_of key (some m) = key m

  -- metric_data[key]
  unfoldable pub values : (Metrics F → Option F) → List (FoldResult F) → List F
  values key [] = []
  values key (f ∷ fs) =
      let rest = values key fs in
      if completed f then prepend (value_of key f.metrics) rest else rest

module _ (n : Numbers) (s : Statistics n.F) where
  open n use {F, lt, add, div, of_int, literal, round}

  -- min(vals) and max(vals) of v and the rest
  unfoldable pub least_of : F → List F → F
  least_of v [] = v
  least_of v (x ∷ xs) = least_of (if lt x v then x else v) xs

  unfoldable pub greatest_of : F → List F → F
  greatest_of v [] = v
  greatest_of v (x ∷ xs) = greatest_of (if lt v x then x else v) xs

  unfoldable pub stats : List F → Option (Stats F)
  stats [] = none
  stats (v ∷ vs) = some (record {
    mean = round (s.fmean (v ∷ vs)) 4;
    std = if ltb 1 (length (v ∷ vs)) then round (s.pstdev (v ∷ vs)) 4 else literal 0 0;
    least = round (least_of v vs) 4;
    greatest = round (greatest_of v vs) 4;
  })

  unfoldable pub sum_from : F → List F → F
  sum_from total [] = total
  sum_from total (v ∷ vs) = sum_from (add total v) vs

  unfoldable pub pf_positive : List F → F
  pf_positive vals =
      round
        (div (of_int (100 * length (select (λ v. lt (literal 1 0) v) vals)))
          (of_int (max (length vals) 1)))
        2

  unfoldable pub aggregate_folds : List (FoldResult F) → Aggregate F
  aggregate_folds fold_results = record {
    n_folds_completed = length (select completed fold_results);
    pf = stats (values (λ m. m.pf) fold_results);
    return_pct = stats (values (λ m. m.return_pct) fold_results);
    sharpe = stats (values (λ m. m.sharpe) fold_results);
    pf_positive_pct = pf_positive (values (λ m. m.pf) fold_results);
    total_trades_across_folds = s.trunc (sum_from (of_int 0) (values (λ m. m.trades) fold_results));
  }

module _ (n : Numbers) where
  open n use {F, lt, le, div, literal}

  -- pf.get("mean") or 0.0, and pf.get("std") or 0.0
  unfoldable pub mean_of : Option (Stats F) → F
  mean_of none = literal 0 0
  mean_of (some s) = s.mean

  unfoldable pub std_of : Option (Stats F) → F
  std_of none = literal 0 0
  std_of (some s) = s.std

  unfoldable pub stability_verdict : Aggregate F → Stability
  stability_verdict agg =
      let pf_mean = mean_of agg.pf in
      if ltb agg.total_trades_across_folds 100
      then insufficient_evidence
      else if lt pf_mean (literal 1 0)
      then no_edge
      else if lt agg.pf_positive_pct (literal 60 0)
      then (if lt (literal 1 0) pf_mean then overfit else no_edge)
      else if lt (literal 15 1) (std_of agg.pf)
      then inconsistent
      else robust

  -- dsr is None or dsr < LOW_FREQ_DSR_BAR
  unfoldable pub below_dsr_bar : Option F → Bool
  below_dsr_bar none = true
  below_dsr_bar (some d) = lt d (literal 90 2)

  -- The gates of `low_freq_stability_verdict`, on the numbers that it computes first.
  unfoldable pub low_freq_gates :
      (total_trades n_obs : ℕ) (fold_mean fold_pos_pct fold_std : F) (dsr : Option F) → Stability
  low_freq_gates total_trades n_obs fold_mean fold_pos_pct fold_std dsr =
      if ltb total_trades 8 || ltb n_obs 30
      then insufficient_evidence
      else if le fold_mean (literal 0 0)
      then no_edge
      else if lt fold_pos_pct (literal 60 0)
      then overfit
      else if below_dsr_bar dsr
      then insufficient_evidence
      else if lt (literal 0 0) fold_mean && lt (literal 25 1) (div fold_std fold_mean)
      then inconsistent
      else robust
