-- ===== src/Roster/Tests.antt =====
-- A roster of three strategies with a floor of five, filled from a small pool.
use research_orchestrator.Prelude.{
  ℕ, String, List, [], ◌∷◌, none, some, ◌≡◌, ◌≤◌, ◌-◌, refl, arith, length, All, map, true,
}
use research_orchestrator.Prelude.Sorting.{then_by, insert_descending, sort_descending}
use research_orchestrator.Numbers.Thousandths.{thousandths, nat-IsKeyOrder}
use research_orchestrator.Roster.{
  code_of, mem, clamp01, sub_robust, sub_folds, product_from, sub_dsr, geometric_mean,
  overfit_quality_of, composite_score, annotated, disqualified, earns, has_edge, other_track,
  is_eligible, fill, roster_gap, Candidate, annotated_all, code, rank_provisional_candidates,
  select_roster_fill, worse,
}
use research_orchestrator.Roster.Selection.{Distinct, MayFill, select_roster_fill_sound}
use research_orchestrator.Roster.Ranking.{IsSettled, OrderLaws, select_roster_fill-IsSettled}

thousandths-OrderLaws : OrderLaws thousandths
thousandths-OrderLaws = record {
  floats = nat-IsKeyOrder;
  texts = record { asymmetric = λ a b h. refl; transitive = λ a b c h k. refl };
}

-- an eligible candidate of one strategy: its annualised return and its deflated Sharpe ratio
abbrev near_miss : String → (ann dsr : ℕ) → Candidate ℕ
near_miss strategy ann dsr = record {
  strategy_code = some strategy;
  track = some "trading";
  statistical_verdict = some "SIGNIFICANT_EDGE";
  ann_return_pct = some ann;
  walk_forward_verdict = none;
  dsr = some dsr;
  fold_positive_pct = none;
  param_robust = some true;
}

abbrev pool : List (Candidate ℕ)
pool =
    near_miss "LSR" 4000 900
    ∷ near_miss "VBO" 7000 900
    ∷ near_miss "VBO" 9000 950
    ∷ record (near_miss "BBR" 9900 990) { walk_forward_verdict = some "OVERFIT" }
    ∷ near_miss "MRO" 6000 900
    ∷ near_miss "LIVE" 9900 990
    ∷ []

picks : map code (select_roster_fill thousandths 3 pool 5 ("LIVE" ∷ [])) ≡ "VBO" ∷ "MRO" ∷ []
unfolding select_roster_fill roster_gap fill rank_provisional_candidates sort_descending
    annotated_all is_eligible other_track has_edge earns disqualified insert_descending worse
    then_by annotated composite_score overfit_quality_of geometric_mean sub_dsr product_from
    sub_folds sub_robust clamp01 mem code_of
picks = refl

select_roster_fill_sound_example :
    let picks = select_roster_fill thousandths 3 pool 5 ("LIVE" ∷ []) in
    (length picks ≤ 5 - 3) × Distinct picks × All (MayFill thousandths ("LIVE" ∷ [])) picks
select_roster_fill_sound_example = select_roster_fill_sound thousandths 3 5 pool ("LIVE" ∷ [])

select_roster_fill-IsSettled_example :
    All
      (IsSettled
        (worse thousandths)
        (5 - 3)
        ("LIVE" ∷ [])
        (select_roster_fill thousandths 3 pool 5 ("LIVE" ∷ [])))
      (annotated_all thousandths pool)
select_roster_fill-IsSettled_example =
    select_roster_fill-IsSettled thousandths thousandths-OrderLaws 3 5 pool ("LIVE" ∷ [])
      (omega arith)
