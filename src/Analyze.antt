-- ===== src/Analyze.antt =====
-- services/analyze.py: the statistical gate, the economic gate, and the sample floor. The metrics
-- that they judge (confidence interval, deflated Sharpe ratio, annualised return) are arguments.
pub mod Gates
pub mod Tests
use research_orchestrator.Prelude.{
  ℕ, Bool, true, false, not, Option, none, some, ltb, leb, if◌then◌else◌,
}
use research_orchestrator.Builtins.{Builtins}
use research_orchestrator.Verdict.{
  StatVerdict, significant_edge, insufficient_evidence, no_edge, Decision, pass, discard, iterate,
}

abbrev pub min_trades_for_sig : ℕ
min_trades_for_sig = 100

-- Why `statistical_verdict` decided as it did.
pub data Reason : Type 0 where
  below_min_trades no_interval no_dsr dsr_below favorable adverse spans : Reason

module _ (b : Builtins) where
  open b use {F, lt, literal}

  -- dsr < DSR_SIGNIFICANCE_THRESHOLD, which is 0.90
  abbrev pub dsr_threshold : F
  dsr_threshold = literal 90 2

  abbrev pub one : F
  one = literal 10 1

  -- ANNUALIZED_RETURN_PASS_THRESHOLD_PCT, which is 0.0
  abbrev pub annualized_return_pass_threshold_pct : F
  annualized_return_pass_threshold_pct = literal 0 1

  -- The multiplicity gate, reached when the interval lies above 1.0.
  unfoldable pub dsr_gate : Option F → StatVerdict × Reason
  dsr_gate none = (insufficient_evidence, no_dsr)
  dsr_gate (some d) =
      if lt d dsr_threshold
      then (insufficient_evidence, dsr_below)
      else (significant_edge, favorable)

  unfoldable pub interval_gate : (low high : F) → Option F → StatVerdict × Reason
  unfolding dsr_gate
  interval_gate low high dsr =
      if lt one low
      then dsr_gate dsr
      else if lt high one
      then (no_edge, adverse)
      else (insufficient_evidence, spans)

  unfoldable pub with_interval : (low high dsr : Option F) → StatVerdict × Reason
  unfolding interval_gate
  with_interval (some low) (some high) dsr = interval_gate low high dsr
  with_interval _ _ dsr = (insufficient_evidence, no_interval)

  unfoldable pub statistical_verdict : (n : ℕ) (low high dsr : Option F) → StatVerdict × Reason
  unfolding with_interval
  statistical_verdict n low high dsr =
      if ltb n min_trades_for_sig
      then (insufficient_evidence, below_min_trades)
      else with_interval low high dsr

  -- The V60 economic gate of a significant edge.
  unfoldable pub economic_gate : Option F → Decision
  economic_gate none = iterate
  economic_gate (some r) = if lt r annualized_return_pass_threshold_pct then iterate else pass

  unfoldable pub decision_of : StatVerdict → Option F → Decision
  unfolding economic_gate
  decision_of no_edge r = discard
  decision_of significant_edge r = economic_gate r
  decision_of _ r = iterate

  unfoldable pub decision_verdict : StatVerdict → (n : ℕ) → Option F → Decision
  unfolding decision_of
  decision_verdict stat n r = if ltb n min_trades_for_sig then iterate else decision_of stat r

unfoldable pub sample_size_adequate : ℕ → Bool
sample_size_adequate n = leb min_trades_for_sig n
