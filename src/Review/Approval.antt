-- ===== src/Review/Approval.antt =====
-- What an approved graduation stands for.
use research_orchestrator.Prelude.{
  ℕ, ◌≤◌, String, ◌≡◌, ◌↔◌, refl, ◌∙◌, sym, Bool, true, ◌&&◌, List, Option, none, some, all, arith,
  Bool-cases, inl, inr,
}
use research_orchestrator.Numbers.{Numbers}
use research_orchestrator.Review.{
  aggregate_verdict, approved, escalate, escalated_check, is_hedging_track, is_hedging_blocker,
}
use research_orchestrator.Review.Plan.{check}
use research_orchestrator.Review.Strictness.{is_harmless, approved_iff}
use research_orchestrator.Review.Graduation.{
  Scalar, number, other, IterationMetrics, Cell, n_trades_ample, holds_of, regimes_hold,
  portfolio_fits, is_plateau, check_n_trades_ample, check_pf_ci_lower_bound, check_dsr_threshold,
  check_cost_realism, check_regime_concentration, check_portfolio_fit, check_param_robustness,
  graduation_review_checklist,
}

module _ (n : Numbers) where
  open n use {F, lt, le, literal}

  -- A value that is there, is a number and all_pass a test.
  abbrev pub Holds : (F → Bool) → Option (Scalar F) → Type 0
  Holds p o = (x : F) × (o ≡ some (number x)) × (p x ≡ true)

  -- What a graduation must show: enough trades, a profit factor surely above 1, a significant
  -- deflated Sharpe ratio, a profit under slippage, no losing regime of those that are known, no
  -- positive correlation with the book at the threshold, and a plateau around the optimum.
  pub record IsGraduate (it : IterationMetrics F) (cells : List (Cell F)) : Type 0 where
    pub traded : (k : ℕ) × (it.n_trades ≡ some k) × (100 ≤ k)
    pub profitable : Holds (λ x. lt (literal 1 0) x) it.pf_95_low
    pub significant : Holds (λ x. le (literal 90 2) x) it.dsr
    pub realistic : Holds (λ x. lt (literal 0 0) x) it.slippage_50bps
    pub regimes : regimes_hold n it.by_trend_regime ≡ true
    pub fits : portfolio_fits n it ≡ true
    pub robust : is_plateau n cells ≡ true

  holds_of-Holds : (p : F → Bool) (o : Option (Scalar F)) → holds_of n p o ≡ true → Holds p o
  unfolding holds_of
  holds_of-Holds p none h = ground (arith, h)
  holds_of-Holds p (some other) h = ground (arith, h)
  holds_of-Holds p (some (number x)) h = (x, refl, h)

  Holds-holds_of : (p : F → Bool) (o : Option (Scalar F)) → Holds p o → holds_of n p o ≡ true
  unfolding holds_of
  Holds-holds_of p o (x, e, h) = rw e h

  ample : (o : Option ℕ) → n_trades_ample o ≡ true → (k : ℕ) × (o ≡ some k) × (100 ≤ k)
  unfolding n_trades_ample
  ample none h = ground (arith, h)
  ample (some k) h = (k, refl, ground (arith, h))

  -- The seven tests in one.
  abbrev all_pass : IterationMetrics F → List (Cell F) → Bool
  all_pass it cells =
      n_trades_ample it.n_trades
      && (holds_of n (λ x. lt (literal 1 0) x) it.pf_95_low
          && (holds_of n (λ x. le (literal 90 2) x) it.dsr
              && (holds_of n (λ x. lt (literal 0 0) x) it.slippage_50bps
                  && (regimes_hold n it.by_trend_regime
                      && (portfolio_fits n it && is_plateau n cells)))))

  -- No check of the list is of severity `info`, on either track.
  checklist-all_pass :
      (it : IterationMetrics F) (cells : List (Cell F)) (track : Option String)
      → all is_harmless (graduation_review_checklist n it cells track) ≡ all_pass it cells
  unfolding graduation_review_checklist escalate escalated_check is_hedging_blocker check
      check_n_trades_ample check_pf_ci_lower_bound check_dsr_threshold check_cost_realism
      check_regime_concentration check_portfolio_fit check_param_robustness
  checklist-all_pass it cells track = elim (Bool-cases (is_hedging_track track)) [
    | inl e ↦ rw e (ground arith)
    | inr e ↦ rw e (ground arith)
  ]

  all_pass-IsGraduate :
      (it : IterationMetrics F) (cells : List (Cell F))
      → all_pass it cells ≡ true
      → IsGraduate it cells
  all_pass-IsGraduate it cells h = record {
    traded = ample it.n_trades (ground (arith, h));
    profitable = holds_of-Holds _ it.pf_95_low (ground (arith, h));
    significant = holds_of-Holds _ it.dsr (ground (arith, h));
    realistic = holds_of-Holds _ it.slippage_50bps (ground (arith, h));
    regimes = ground (arith, h);
    fits = ground (arith, h);
    robust = ground (arith, h);
  }

  traded-ample : (o : Option ℕ) → (k : ℕ) × (o ≡ some k) × (100 ≤ k) → n_trades_ample o ≡ true
  unfolding n_trades_ample
  traded-ample o (k, e, h) = rw e (ground (arith, h))

  IsGraduate-all_pass :
      (it : IterationMetrics F) (cells : List (Cell F))
      → IsGraduate it cells
      → all_pass it cells ≡ true
  IsGraduate-all_pass it cells g =
      rw
        (
          traded-ample it.n_trades g.traded,
          Holds-holds_of _ it.pf_95_low g.profitable,
          Holds-holds_of _ it.dsr g.significant,
          Holds-holds_of _ it.slippage_50bps g.realistic,
          g.regimes,
          g.fits,
          g.robust,
        )
        refl

  -- The review of a graduation approves, on either track, exactly when the iteration has at least
  -- 100 trades, a lower bound of the profit factor above 1, a deflated Sharpe ratio of at least
  -- 0.90 and a positive profit under 50 basis points of slippage, each of them there and a number,
  -- and its regimes hold, it fits the book, and its optimum lies on a plateau.
  pub graduation_approved_iff :
      (it : IterationMetrics F) (cells : List (Cell F)) (track : Option String)
      → ((aggregate_verdict (graduation_review_checklist n it cells track)).verdict ≡ approved)
        ↔ IsGraduate it cells
  graduation_approved_iff it cells track =
      let (fore, back) = approved_iff (graduation_review_checklist n it cells track) in
      (
        λ h. all_pass-IsGraduate it cells (sym (checklist-all_pass it cells track) ∙ fore h),
        λ g. back (checklist-all_pass it cells track ∙ IsGraduate-all_pass it cells g),
      )
