-- ===== src/Analyze/Gates.antt =====
-- Exactly when each verdict of services/analyze.py is given.
use research_orchestrator.Prelude.{ℕ, ◌≤◌, ◌≡◌, refl, ◌↔◌, true, false, Option, some, arith}
use research_orchestrator.Builtins.{Builtins}
use research_orchestrator.Verdict.{
  StatVerdict, significant_edge, insufficient_evidence, no_edge, pass, discard, iterate,
}
use research_orchestrator.Analyze.{statistical_verdict, decision_verdict, sample_size_adequate}

module _ (b : Builtins) where
  open b use {F, lt, literal}

  -- The evidence that V11 asks for: an adequate sample, an interval above 1.0, and a deflated
  -- Sharpe ratio that is known and not below 0.90.
  pub record HasEdge (n : ℕ) (low high dsr : Option F) : Type 0 where
    pub adequate : 100 ≤ n
    pub low_value : F
    pub low_known : low ≡ some low_value
    pub high_value : F
    pub high_known : high ≡ some high_value
    pub above : lt (literal 10 1) low_value ≡ true
    pub dsr_value : F
    pub dsr_known : dsr ≡ some dsr_value
    pub deflated : lt dsr_value (literal 90 2) ≡ false

  -- The evidence against it: an adequate sample whose interval lies below 1.0.
  pub record HasLoss (n : ℕ) (low high : Option F) : Type 0 where
    pub adequate : 100 ≤ n
    pub low_value : F
    pub low_known : low ≡ some low_value
    pub high_value : F
    pub high_known : high ≡ some high_value
    pub not_above : lt (literal 10 1) low_value ≡ false
    pub below : lt high_value (literal 10 1) ≡ true

  -- An annualised return that is known and not below zero.
  pub record EarnsEnough (r : Option F) : Type 0 where
    pub value : F
    pub known : r ≡ some value
    pub enough : lt value (literal 0 1) ≡ false

  edge_of :
      (n : ℕ) (low high dsr : Option F)
      → (statistical_verdict b n low high dsr).0 ≡ significant_edge
      → HasEdge n low high dsr
  unfolding statistical_verdict
  edge_of n (some l) (some h) (some d) e = record {
    adequate = ground arith;
    low_value = l;
    low_known = refl;
    high_value = h;
    high_known = refl;
    above = ground arith;
    dsr_value = d;
    dsr_known = refl;
    deflated = ground arith;
  }
  edge_of n low high dsr e = absurd (ground arith)

  of_edge :
      (n : ℕ) (low high dsr : Option F)
      → HasEdge n low high dsr
      → (statistical_verdict b n low high dsr).0 ≡ significant_edge
  unfolding statistical_verdict
  of_edge n low high dsr h = ground arith

  loss_of :
      (n : ℕ) (low high dsr : Option F)
      → (statistical_verdict b n low high dsr).0 ≡ no_edge
      → HasLoss n low high
  unfolding statistical_verdict
  loss_of n (some l) (some h) dsr e = record {
    adequate = ground arith;
    low_value = l;
    low_known = refl;
    high_value = h;
    high_known = refl;
    not_above = ground arith;
    below = ground arith;
  }
  loss_of n low high dsr e = absurd (ground arith)

  of_loss :
      (n : ℕ) (low high dsr : Option F)
      → HasLoss n low high
      → (statistical_verdict b n low high dsr).0 ≡ no_edge
  unfolding statistical_verdict
  of_loss n low high dsr h = ground arith

  -- A decision, in terms of the statistical verdict and the return.
  pass_needs :
      (stat : StatVerdict) (n : ℕ) (r : Option F)
      → decision_verdict b stat n r ≡ pass
      → (stat ≡ significant_edge) × EarnsEnough r
  unfolding decision_verdict
  pass_needs significant_edge n (some v) e =
      (refl, record { value = v; known = refl; enough = ground arith })
  pass_needs stat n r e = absurd (ground arith)

  pass_given :
      (n : ℕ) (r : Option F)
      → 100 ≤ n
      → EarnsEnough r
      → decision_verdict b significant_edge n r ≡ pass
  unfolding decision_verdict
  pass_given n r h e = ground arith

  discard_needs :
      (stat : StatVerdict) (n : ℕ) (r : Option F)
      → decision_verdict b stat n r ≡ discard
      → stat ≡ no_edge
  unfolding decision_verdict
  discard_needs no_edge n r e = refl
  discard_needs stat n r e = absurd (ground arith)

  discard_given : (n : ℕ) (r : Option F) → 100 ≤ n → decision_verdict b no_edge n r ≡ discard
  unfolding decision_verdict
  discard_given n r h = ground arith

  -- Whatever the order of floats, a run passes exactly when it has the evidence of an edge (at
  -- least 100 trades, an interval above 1.0, a known deflated Sharpe ratio that is not below 0.90)
  -- and a known annualised return that is not below zero, and it is discarded exactly when it has
  -- the evidence of a loss (at least 100 trades and an interval below 1.0).
  pub decision_verdict_iff :
      (n : ℕ) (low high dsr r : Option F)
      → let decision = decision_verdict b (statistical_verdict b n low high dsr).0 n r in
        ((decision ≡ pass) ↔ (HasEdge n low high dsr × EarnsEnough r))
        × ((decision ≡ discard) ↔ HasLoss n low high)
  decision_verdict_iff n low high dsr r = (
    (
      λ e.
          let (edge, enough) = pass_needs (statistical_verdict b n low high dsr).0 n r e in
          (edge_of n low high dsr edge, enough),
      λ (edge, enough). rw (of_edge n low high dsr edge) (pass_given n r edge.adequate enough),
    ),
    (
      λ e. loss_of n low high dsr (discard_needs (statistical_verdict b n low high dsr).0 n r e),
      λ loss. rw (of_loss n low high dsr loss) (discard_given n r loss.adequate),
    ),
  )

  -- A sample that the floor calls inadequate is never judged: it is iterated, with insufficient
  -- evidence, whatever its metrics.
  sample_floor :
      (n : ℕ) (low high dsr r : Option F) (stat : StatVerdict)
      → sample_size_adequate n ≡ false
      → ((statistical_verdict b n low high dsr).0 ≡ insufficient_evidence)
        × (decision_verdict b stat n r ≡ iterate)
  unfolding statistical_verdict decision_verdict sample_size_adequate
  sample_floor n low high dsr r stat h = ground arith
