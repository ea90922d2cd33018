-- ===== src/Review/Tests.antt =====
-- A review of three checks, and the theorems at this input.
use research_orchestrator.Prelude.Dict.{lookup}
use research_orchestrator.Review.Plan.{check}
use research_orchestrator.Numbers.Thousandths.{thousandths}
use research_orchestrator.Review.Graduation.{
  text_at, n_diffs, is_near, best_pf, optimum, near_optimum, is_plateau, max_from, max_or_zero,
  numbers_of, fits_signed, portfolio_fits, count_or_zero, is_losing, regimes_hold,
  check_param_robustness, check_portfolio_fit, check_regime_concentration, check_cost_realism,
  check_dsr_threshold, holds_of, check_pf_ci_lower_bound, n_trades_ample, check_n_trades_ample,
  number, IterationMetrics, Cell, graduation_review_checklist,
}
use research_orchestrator.Review.Approval.{IsGraduate, graduation_approved_iff}
use research_orchestrator.Prelude.{
  ℕ, none, ◌≡◌, ◌≤◌, ◌↔◌, refl, true, false, some, List, [], ◌∷◌, select,
}
use research_orchestrator.Review.{
  Check, blocker, warning, info, approved, conditional_approval, rejected, aggregate_verdict,
  escalate,
}
use research_orchestrator.Review.Strictness.{strictness, escalate-strictness}

abbrev checks : List Check
checks =
    record { check_name = "n_trades_ample"; severity = blocker; passed = true }
    ∷ record { check_name = "regime_concentration"; severity = warning; passed = false }
    ∷ record { check_name = "portfolio_fit"; severity = info; passed = false }
    ∷ []

verdicts :
    ((aggregate_verdict checks).verdict ≡ conditional_approval)
    × ((aggregate_verdict (escalate (some "hedging") checks)).verdict ≡ rejected)
unfolding aggregate_verdict escalate select
verdicts = (refl, refl)

escalate-strictness_example :
    strictness (aggregate_verdict checks).verdict
    ≤ strictness (aggregate_verdict (escalate (some "hedging") checks)).verdict
escalate-strictness_example = escalate-strictness (some "hedging") checks

abbrev iteration : IterationMetrics ℕ
iteration = record {
  n_trades = some 140;
  pf_95_low = some (number 1100);
  dsr = some (number 950);
  slippage_50bps = some (number 30);
  by_trend_regime =
      ("TREND", some (record { n = some 90; pnl = some 40 }))
      ∷ ("CHOP", some (record { n = some 4; pnl = none }))
      ∷ [];
  corr_applied = true;
  per_code_corr = ("LSR", some (number 210)) ∷ ("VCB", none) ∷ [];
}

abbrev cells : List (Cell ℕ)
cells =
    record { params = ("period", "14") ∷ ("stop", "2") ∷ []; pf = 1500 }
    ∷ record { params = ("period", "21") ∷ ("stop", "2") ∷ []; pf = 1200 }
    ∷ []

graduation :
    (aggregate_verdict (graduation_review_checklist thousandths iteration cells none)).verdict
    ≡ approved
unfolding aggregate_verdict select graduation_review_checklist escalate check_n_trades_ample check
    n_trades_ample check_pf_ci_lower_bound holds_of check_dsr_threshold check_cost_realism
    check_regime_concentration check_portfolio_fit check_param_robustness regimes_hold is_losing
    count_or_zero portfolio_fits fits_signed numbers_of max_or_zero max_from is_plateau near_optimum
    optimum best_pf is_near n_diffs text_at lookup
graduation = refl

graduation_approved_iff_example :
    ((aggregate_verdict (graduation_review_checklist thousandths iteration cells none)).verdict
      ≡ approved)
    ↔ IsGraduate thousandths iteration cells
graduation_approved_iff_example = graduation_approved_iff thousandths iteration cells none
