-- ===== src/Pool/Tests.antt =====
-- A pool of two members of one strategy, and a candidate.
use research_orchestrator.Prelude.{select, ℕ, Option, ◌≡◌, ◌↔◌, refl, [], ◌∷◌, some, true, map}
use research_orchestrator.Prelude.Dict.{lookup, insert, Dict}
use research_orchestrator.Numbers.Thousandths.{thousandths, nat-IsKeyOrder}
use research_orchestrator.Pool.Marginal.{
  term, hrp_for, total_on, or_flat, sum, fill_from, calendar_fill, sharpe_of, sharpe_within,
  combined_from, combined_series, annualised_sharpe, result, at_day, n_common, greatest_overlap,
  last_of, first_of, span, both, spans, if_ordered, common_window, within, Series, Weigher,
  marginal_sharpe_contribution,
}
use research_orchestrator.Pool.{
  Context, is_lower, without, contribution_of, is_unmeasurable, redundant, considered, worst_of,
  evictions, admitted, evaluate_admission, greedy_evictions,
}
use research_orchestrator.Pool.Admitting.{IsAdmissible, evaluate_admission_iff}
use research_orchestrator.Pool.Evictions.{Evicts, greedy_evictions-Evicts}

-- every series at full weight
abbrev unweighted : Weigher ℕ
unweighted d = map (λ e. (e.0, 1000)) d

abbrev week : (first second : ℕ) → Series ℕ
week x y = (1, x) ∷ (2, y) ∷ (3, x) ∷ (4, y) ∷ (5, x) ∷ (6, y) ∷ []

abbrev members : Dict (Series ℕ)
members = ("LSR:BTCUSDT:1h", week 30 10) ∷ ("VBO:BTCUSDT:1h", week 30 10) ∷ []

-- one of the two leaves, the other stays
twins : map (λ e. e.0) (greedy_evictions thousandths unweighted members 0) ≡ "LSR:BTCUSDT:1h" ∷ []
unfolding greedy_evictions evictions worst_of considered redundant is_unmeasurable contribution_of
    marginal_sharpe_contribution without select within common_window if_ordered spans insert both
    span first_of last_of greatest_overlap n_common at_day result annualised_sharpe combined_series
    combined_from sharpe_within sharpe_of calendar_fill fill_from sum or_flat total_on hrp_for term
    lookup is_lower
twins = refl

greedy_evictions-Evicts_example :
    Evicts thousandths unweighted 0 members (greedy_evictions thousandths unweighted members 0)
greedy_evictions-Evicts_example =
    greedy_evictions-Evicts thousandths unweighted 0 nat-IsKeyOrder.order members

evaluate_admission_iff_example :
    let c = marginal_sharpe_contribution thousandths unweighted (week 20 40) members in
    let ctx : Option (Context ℕ) =
      some (record { statistical_verdict = "SIGNIFICANT_EDGE"; dsr = some 950 }) in
    (evaluate_admission thousandths unweighted 20 ctx true (week 20 40) members ≡ admitted c) ↔ (
      (c ≡ marginal_sharpe_contribution thousandths unweighted (week 20 40) members)
      × IsAdmissible thousandths unweighted 20 ctx true (week 20 40) c)
evaluate_admission_iff_example =
    evaluate_admission_iff thousandths unweighted 20 true (week 20 40) members _ _
