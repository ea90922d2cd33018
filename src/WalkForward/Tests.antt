-- ===== src/WalkForward/Tests.antt =====
-- The default layout of a walk-forward, and three folds of which one failed.
use research_orchestrator.Prelude.{
  ◌/◌, suc, ◌++◌, ℕ, ◌≤◌, ◌≡◌, ◌↔◌, ◌⊎◌, refl, none, some, true, false, List, [], ◌∷◌, length,
  select, arith,
}
use research_orchestrator.Numbers.Thousandths.{thousandths}
use research_orchestrator.WalkForward.Dates.{
  last_day, add_months, is_leap, to_ordinal, date, before,
}
use research_orchestrator.WalkForward.{
  std_of, pf_positive, stats, mean_of, value_of, prepend, has_error, values, sum_from, latest,
  earliest, overlap_days, folds_from, Layout, Statistics, FoldResult, robust, build_folds,
  test_start, test_end, completed, aggregate_folds, stability_verdict, low_freq_gates,
  window_covers_bear,
}
use research_orchestrator.WalkForward.Folds.{
  Numbered, IsWindow, ContiguousFrom, build_folds-IsWindow, build_folds-ContiguousFrom,
}
use research_orchestrator.WalkForward.Verdicts.{
  IsStable, IsStableEquity, failed, aggregate_folds-IsFailed, stability_verdict_iff,
}

abbrev layout : Layout
layout = record {
  full_start = date 2024 1 15;
  full_end = date 2024 12 31;
  train_months = 3;
  test_months = 2;
  step_months = 2;
}

folds :
    build_folds layout 6
    ≡ (date 2024 4 15, date 2024 6 15)
      ∷ (date 2024 6 15, date 2024 8 15)
      ∷ (date 2024 8 15, date 2024 10 15)
      ∷ (date 2024 10 15, date 2024 12 15)
      ∷ []
unfolding build_folds folds_from before to_ordinal is_leap test_end add_months test_start last_day
folds = refl

-- A start on the 31st: the windows overlap by two days at the end of April.
overlapping_folds :
    build_folds
      (record layout {
        full_start = date 2023 12 31;
        train_months = 2;
        test_months = 1;
        step_months = 1;
      })
      3
    ≡ (date 2024 2 29, date 2024 3 29)
      ∷ (date 2024 3 31, date 2024 4 30)
      ∷ (date 2024 4 29, date 2024 5 29)
      ∷ []
unfolding build_folds folds_from before to_ordinal is_leap test_end add_months test_start last_day
overlapping_folds = refl

bears :
    (window_covers_bear (date 2018 1 1) (date 2020 1 1) 45 ≡ true)
    × (window_covers_bear (date 2023 1 1) (date 2025 1 1) 45 ≡ false)
unfolding window_covers_bear overlap_days to_ordinal earliest before is_leap latest
bears = (refl, refl)

build_folds-IsWindow_example :
    Numbered (IsWindow layout) 0 (build_folds layout 6)
    × (length (build_folds layout 6) ≤ 6)
    × ((length (build_folds layout 6) ≡ 6)
        ⊎ (before layout.full_end (test_end layout (length (build_folds layout 6))) ≡ true))
build_folds-IsWindow_example = build_folds-IsWindow layout 6

build_folds-ContiguousFrom_example : ContiguousFrom (test_start layout 0) (build_folds layout 6)
build_folds-ContiguousFrom_example = build_folds-ContiguousFrom layout (omega arith) 6 refl

-- a mean is taken as the first value, and there is no deviation
abbrev statistics : Statistics ℕ
statistics = record {
  fmean = λ xs. elim xs [ [] ↦ 0 | x ∷ rest ↦ x ];
  pstdev = λ xs. 0;
  trunc = λ x. x / 1000;
}

abbrev fold : (pf trades : ℕ) → FoldResult ℕ
fold pf trades = record {
  metrics =
      some (record {
        pf = some pf;
        return_pct = none;
        sharpe = none;
        trades = some trades;
        wr = none;
      });
  error = none;
}

abbrev results : List (FoldResult ℕ)
results =
    fold 1400 60000
    ∷ record (fold 9000 90000) { error = some "backtest FAILED" }
    ∷ fold 1200 70000
    ∷ []

verdict : stability_verdict thousandths (aggregate_folds thousandths statistics results) ≡ robust
unfolding stability_verdict aggregate_folds sum_from values completed has_error prepend value_of
    mean_of stats pf_positive select std_of
verdict = refl

abbrev broken : FoldResult ℕ
broken = record (fold 9000 90000) { error = some "backtest FAILED" }

aggregate_folds-IsFailed_example :
    let before = fold 1400 60000 ∷ [] in
    let after = fold 1200 70000 ∷ [] in
    (aggregate_folds thousandths statistics (before ++ broken ∷ after)
      ≡ aggregate_folds thousandths statistics (before ++ after))
    × ((aggregate_folds thousandths statistics (before ++ fold 900 5000 ∷ after)).n_folds_completed
        ≡ suc (aggregate_folds thousandths statistics (before ++ after)).n_folds_completed)
aggregate_folds-IsFailed_example =
    aggregate_folds-IsFailed thousandths statistics (fold 1400 60000 ∷ []) (fold 1200 70000 ∷ [])
      broken (fold 900 5000)
      (record { pf = some 900; return_pct = none; sharpe = none; trades = some 5000; wr = none })
      (failed "backtest FAILED" refl refl) refl refl

stability_verdict_iff_example :
    let agg = aggregate_folds thousandths statistics results in
    ((stability_verdict thousandths agg ≡ robust) ↔ IsStable thousandths agg)
    × ((low_freq_gates thousandths 12 400 9000 75000 12000 (some 930) ≡ robust)
        ↔ IsStableEquity thousandths 12 400 9000 75000 12000 (some 930))
stability_verdict_iff_example =
    stability_verdict_iff thousandths (aggregate_folds thousandths statistics results) 12 400 9000
      75000 12000 (some 930)
