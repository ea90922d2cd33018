-- ===== src/Pool/Admitting.antt =====
-- Who is admitted to the pool.
use research_orchestrator.Prelude.{
  ◌≤◌, ◌≡◌, ◌↔◌, refl, sym, subst, Bool, true, false, Option, none, some, length, str_eq, arith,
}
use research_orchestrator.Prelude.Dict.{Dict}
use research_orchestrator.Numbers.{Numbers}
use research_orchestrator.Pool.Marginal.{
  Series, Weigher, Contribution, min_obs, marginal_sharpe_contribution,
}
use research_orchestrator.Pool.{Context, admitted, evaluate_admission, by_margin, below_threshold}

module _ (n : Numbers) (hrp : Weigher n.F) where
  open n use {F, lt, le, literal, round}

  -- A statistically real candidate with a ROBUST walk-forward and some history, that adds more
  -- than the threshold to the Sharpe ratio of the pool.
  pub record IsAdmissible (theta : F) (ctx : Option (Context F)) (robust : Bool)
      (returns : Series F) (c : Contribution F) : Type 0 where
    pub context : Context F
    pub found : ctx ≡ some context
    pub edge : str_eq context.statistical_verdict "SIGNIFICANT_EDGE" ≡ true
    pub dsr : F
    pub has_dsr : context.dsr ≡ some dsr
    pub significant : lt dsr (literal 90 2) ≡ false
    pub is_robust : robust ≡ true
    pub history : min_obs ≤ length returns
    pub adds : lt theta c.marginal ≡ true

  at_threshold :
      (o : Option F)
      → below_threshold n hrp o ≡ false
      → (d : F) × (o ≡ some d) × (lt d (literal 90 2) ≡ false)
  unfolding below_threshold
  at_threshold none h = ground (arith, h)
  at_threshold (some d) h = (d, refl, h)

  module _ (theta : F) (robust : Bool) (returns : Series F) (members : Dict (Series F)) where
    abbrev measured_contribution : Contribution F
    measured_contribution = marginal_sharpe_contribution n hrp returns members

    admitted-IsAdmissible :
        (ctx : Option (Context F)) (c : Contribution F)
        → evaluate_admission n hrp theta ctx robust returns members ≡ admitted c
        → (c ≡ measured_contribution) × IsAdmissible theta ctx robust returns c
    unfolding evaluate_admission by_margin
    admitted-IsAdmissible none c h = ground (arith, h)
    admitted-IsAdmissible (some x) c h =
        let (d, is, bar) = at_threshold x.dsr (ground (arith, h)) in
        let same : measured_contribution ≡ c = ground (arith, h) in
        let adds : lt theta measured_contribution.marginal ≡ true = ground (arith, h) in
        (
          sym same,
          record {
            context = x;
            found = refl;
            edge = ground (arith, h);
            dsr = d;
            has_dsr = is;
            significant = bar;
            is_robust = ground (arith, h);
            history = ground (arith, h);
            adds = subst (λ y. lt theta y.marginal ≡ true) same adds;
          },
        )

    IsAdmissible-admitted :
        (ctx : Option (Context F)) (c : Contribution F)
        → (c ≡ measured_contribution) × IsAdmissible theta ctx robust returns c
        → evaluate_admission n hrp theta ctx robust returns members ≡ admitted c
    unfolding evaluate_admission by_margin below_threshold
    IsAdmissible-admitted ctx c (same, h) =
        let adds : lt theta measured_contribution.marginal ≡ true =
          subst (λ y. lt theta y.marginal ≡ true) same h.adds in
        rw (h.found)
          (ground (arith, h.edge, h.has_dsr, h.significant, h.is_robust, h.history, adds, same))

    -- `evaluate_admission` admits a candidate with a contribution exactly when it is found with
    -- the verdict SIGNIFICANT_EDGE and a deflated Sharpe ratio not below 0.90, has a ROBUST
    -- walk-forward and at least five days of returns, and the contribution is what
    -- `marginal_sharpe_contribution` measures against the pool and is above the threshold.
    pub evaluate_admission_iff :
        (ctx : Option (Context F)) (c : Contribution F)
        → (evaluate_admission n hrp theta ctx robust returns members ≡ admitted c) ↔ (
            (c ≡ marginal_sharpe_contribution n hrp returns members)
            × IsAdmissible theta ctx robust returns c)
    evaluate_admission_iff ctx c = (admitted-IsAdmissible ctx c, IsAdmissible-admitted ctx c)
