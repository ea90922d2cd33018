-- ===== src/Analyze/Tests.antt =====
-- The gates with floats as decimals of one fixed scale.
use research_orchestrator.Prelude.{ℕ, ◌+◌, ◌*◌, ◌^◌, ◌-◌, ◌≡◌, ◌↔◌, refl, none, some, ltb, leb}
use research_orchestrator.Builtins.{Builtins}
use research_orchestrator.Verdict.{
  insufficient_evidence, no_edge, significant_edge, pass, discard, iterate,
}
use research_orchestrator.Analyze.{statistical_verdict, decision_verdict}
use research_orchestrator.Analyze.Gates.{HasEdge, EarnsEnough, HasLoss, decision_verdict_iff}

-- Floats as multiples of 10 ^ -6.
abbrev pub micro : Builtins
micro = record {
  F = ℕ;
  lt = ltb;
  le = leb;
  literal = λ m e. m * 10 ^ (6 - e);
  show_float2 = λ x. "x";
  show_int = λ n. "n";
  str_value = λ v. "v";
  parse_float = λ s. none;
  upper = λ s. s;
}

decision_verdict_iff_example :
    let decision =
      decision_verdict micro
        (statistical_verdict micro 120 (some 1100000) (some 1900000) (some 950000)).0
        120
        (some 14000000) in
    ((decision ≡ pass) ↔ (
      HasEdge micro 120 (some 1100000) (some 1900000) (some 950000)
      × EarnsEnough micro (some 14000000)))
    × ((decision ≡ discard) ↔ HasLoss micro 120 (some 1100000) (some 1900000))
decision_verdict_iff_example =
    decision_verdict_iff micro 120 (some 1100000) (some 1900000) (some 950000) (some 14000000)

verdicts :
    ((statistical_verdict micro 120 (some 1100000) (some 1900000) (some 950000)).0
      ≡ significant_edge)
    × ((statistical_verdict micro 120 (some 1100000) (some 1900000) (some 890000)).0
        ≡ insufficient_evidence)
    × ((statistical_verdict micro 120 (some 500000) (some 900000) none).0 ≡ no_edge)
    × (decision_verdict micro significant_edge 120 (some 9000000) ≡ pass)
    × (decision_verdict micro significant_edge 120 none ≡ iterate)
unfolding statistical_verdict decision_verdict
verdicts = (refl, refl, refl, refl, refl)

-- The same scale from -1000 on, so that there are losses.
abbrev signed : Builtins
signed = record micro { literal = λ m e. 1000000000 + m * 10 ^ (6 - e) }

-- No loss passes, and a return of zero does.
returns :
    (decision_verdict signed significant_edge 120 (some 999990000) ≡ iterate)
    × (decision_verdict signed significant_edge 120 (some 1000000000) ≡ pass)
unfolding decision_verdict
returns = (refl, refl)
