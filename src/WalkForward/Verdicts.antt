-- ===== src/WalkForward/Verdicts.antt =====
-- What the fold results add up to, and when they are ROBUST.
use research_orchestrator.Prelude.{
  ℕ, suc, length, String, str_eq, ◌++◌, true, ◌≤◌, ◌≡◌, ◌↔◌, refl, false, List, [], ◌∷◌, Option,
  none, some, select, arith, Bool-cases, inl, inr, ◌&&◌,
}
use research_orchestrator.Numbers.{Numbers}
use research_orchestrator.WalkForward.{
  Statistics, Metrics, FoldResult, Aggregate, robust, completed, has_error, values, aggregate_folds,
  mean_of, std_of, stability_verdict, below_dsr_bar, low_freq_gates,
}

-- The fold has no metrics, or it names an error.
pub data IsFailed {F : Type 0} (f : FoldResult F) : Type 0 where
  unmeasured : f.metrics ≡ none → IsFailed f
  failed : (message : String) → f.error ≡ some message → str_eq message "" ≡ false → IsFailed f

module _ {F : Type 0} where
  failed-completed : (f : FoldResult F) → IsFailed f → completed f ≡ false
  unfolding completed has_error
  failed-completed f (unmeasured e) = rw e refl
  failed-completed f (failed message e h) = ground (arith, e, h)

  counted :
      (g : FoldResult F) (m : Metrics F) → g.metrics ≡ some m → g.error ≡ none → completed g ≡ true
  unfolding completed has_error
  counted g m measured fine = rw (measured, fine) refl

  values-append :
      (key : Metrics F → Option F) (f : FoldResult F) (before after : List (FoldResult F))
      → completed f ≡ false
      → values key (before ++ f ∷ after) ≡ values key (before ++ after)
  unfolding values
  values-append key f [] after h = rw h refl
  values-append key f (g ∷ before) after h = rw (values-append key f before after h) refl

  select-append :
      (f : FoldResult F) (before after : List (FoldResult F))
      → completed f ≡ false
      → select completed (before ++ f ∷ after) ≡ select completed (before ++ after)
  unfolding select
  select-append f [] after h = rw h refl
  select-append f (g ∷ before) after h = rw (select-append f before after h) refl

  -- One that did not fail is counted.
  count-append :
      (f : FoldResult F) (before after : List (FoldResult F))
      → completed f ≡ true
      → length (select completed (before ++ f ∷ after))
        ≡ suc (length (select completed (before ++ after)))
  unfolding select
  count-append f [] after h = rw h refl
  count-append f (g ∷ before) after h = elim (Bool-cases (completed g)) [
    | inl e ↦ rw (e, count-append f before after h) refl
    | inr e ↦ rw (e, count-append f before after h) refl
  ]

module _ (n : Numbers) (s : Statistics n.F) where
  open n use {F}

  -- A fold that has no metrics, or that names an error, changes nothing of what `aggregate_folds`
  -- returns, wherever it stands among the results; and one with metrics and no error is counted.
  pub aggregate_folds-IsFailed :
      (before after : List (FoldResult F)) (f g : FoldResult F) (m : Metrics F)
      → IsFailed f
      → g.metrics ≡ some m
      → g.error ≡ none
      → (aggregate_folds n s (before ++ f ∷ after) ≡ aggregate_folds n s (before ++ after))
        × ((aggregate_folds n s (before ++ g ∷ after)).n_folds_completed
            ≡ suc (aggregate_folds n s (before ++ after)).n_folds_completed)
  unfolding aggregate_folds
  aggregate_folds-IsFailed before after f g m lost measured fine =
      let h = failed-completed f lost in
      (
        rw
            (
              select-append f before after h,
              values-append (λ m. m.pf) f before after h,
              values-append (λ m. m.return_pct) f before after h,
              values-append (λ m. m.sharpe) f before after h,
              values-append (λ m. m.trades) f before after h,
            )
            refl,
        count-append g before after (counted g m measured fine),
      )

module _ (n : Numbers) where
  open n use {F, lt, le, div, literal}

  -- Enough trades, and folds that earn on average, in most cases and evenly.
  pub record IsStable (agg : Aggregate F) : Type 0 where
    pub traded : 100 ≤ agg.total_trades_across_folds
    pub earning : lt (mean_of n agg.pf) (literal 1 0) ≡ false
    pub broad : lt agg.pf_positive_pct (literal 60 0) ≡ false
    pub steady : lt (literal 15 1) (std_of n agg.pf) ≡ false

  stability_verdict-robust : (agg : Aggregate F) → stability_verdict n agg ≡ robust → IsStable agg
  unfolding stability_verdict
  stability_verdict-robust agg h = record {
    traded = ground (arith, h);
    earning = ground (arith, h);
    broad = ground (arith, h);
    steady = ground (arith, h);
  }

  IsStable-robust : (agg : Aggregate F) → IsStable agg → stability_verdict n agg ≡ robust
  unfolding stability_verdict
  IsStable-robust agg h = ground (arith, h.traded, h.earning, h.broad, h.steady)

  -- Enough trades and days, folds that earn on average, in most cases and evenly, and a deflated
  -- Sharpe ratio at the bar.
  pub record IsStableEquity (total_trades n_obs : ℕ) (fold_mean fold_pos_pct fold_std : F)
      (dsr : Option F) : Type 0 where
    pub traded : 8 ≤ total_trades
    pub observed : 30 ≤ n_obs
    pub earning : le fold_mean (literal 0 0) ≡ false
    pub broad : lt fold_pos_pct (literal 60 0) ≡ false
    pub significant : (d : F) × (dsr ≡ some d) × (lt d (literal 90 2) ≡ false)
    pub steady : (lt (literal 0 0) fold_mean && lt (literal 25 1) (div fold_std fold_mean)) ≡ false

  at_dsr_bar :
      (dsr : Option F)
      → below_dsr_bar n dsr ≡ false
      → (d : F) × (dsr ≡ some d) × (lt d (literal 90 2) ≡ false)
  unfolding below_dsr_bar
  at_dsr_bar none h = ground (arith, h)
  at_dsr_bar (some d) h = (d, refl, h)

  low_freq_gates-robust :
      (total_trades n_obs : ℕ) (fold_mean fold_pos_pct fold_std : F) (dsr : Option F)
      → low_freq_gates n total_trades n_obs fold_mean fold_pos_pct fold_std dsr ≡ robust
      → IsStableEquity total_trades n_obs fold_mean fold_pos_pct fold_std dsr
  unfolding low_freq_gates
  low_freq_gates-robust total_trades n_obs fold_mean fold_pos_pct fold_std dsr h = record {
    traded = ground (arith, h);
    observed = ground (arith, h);
    earning = ground (arith, h);
    broad = ground (arith, h);
    significant = at_dsr_bar dsr (ground (arith, h));
    steady = ground (arith, h);
  }

  IsStableEquity-robust :
      (total_trades n_obs : ℕ) (fold_mean fold_pos_pct fold_std : F) (dsr : Option F)
      → IsStableEquity total_trades n_obs fold_mean fold_pos_pct fold_std dsr
      → low_freq_gates n total_trades n_obs fold_mean fold_pos_pct fold_std dsr ≡ robust
  unfolding low_freq_gates below_dsr_bar
  IsStableEquity-robust total_trades n_obs fold_mean fold_pos_pct fold_std dsr h =
      let (d, is, bar) = h.significant in
      rw is (ground (arith, h.traded, h.observed, h.earning, h.broad, bar, h.steady))

  -- A walk-forward is ROBUST exactly when it is stable: on the trade track when the folds have at
  -- least 100 trades, a mean profit factor not below 1, at least 60% of them profitable and a
  -- deviation of at most 1.5; on the equity track when there are 8 trades and 30 days, the folds
  -- earn, at least 60% of them, the deflated Sharpe ratio is there and at its bar, and the
  -- deviation is at most 2.5 times the mean.
  pub stability_verdict_iff :
      (agg : Aggregate F) (total_trades n_obs : ℕ) (fold_mean fold_pos_pct fold_std : F)
      (dsr : Option F)
      → ((stability_verdict n agg ≡ robust) ↔ IsStable agg)
        × ((low_freq_gates n total_trades n_obs fold_mean fold_pos_pct fold_std dsr ≡ robust)
            ↔ IsStableEquity total_trades n_obs fold_mean fold_pos_pct fold_std dsr)
  stability_verdict_iff agg total_trades n_obs fold_mean fold_pos_pct fold_std dsr = (
    (stability_verdict-robust agg, IsStable-robust agg),
    (
      low_freq_gates-robust total_trades n_obs fold_mean fold_pos_pct fold_std dsr,
      IsStableEquity-robust total_trades n_obs fold_mean fold_pos_pct fold_std dsr,
    ),
  )
