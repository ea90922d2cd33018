-- ===== src/Capacity/Tests.antt =====
-- A sweep over four capitals, one of whose runs has failed.
use research_orchestrator.Prelude.{◌≡◌, refl, ℕ, List, [], ◌∷◌, some, none}
use research_orchestrator.Prelude.Sorting.{sort_descending, insert_descending}
use research_orchestrator.Numbers.Thousandths.{thousandths}
use research_orchestrator.Capacity.{
  Scale, proceed, judge_sweep, classify_verdict, classify_points, valid, measured, with_run,
  with_pf, scan, scan_step, scan_start, by_decay, is_cliff, is_below, five_times, defaults, greater,
  decay_pct, provisional_judge_verdict, linear_scalable,
}
use research_orchestrator.Capacity.Judged.{IsJudged, judge_sweep-IsJudged}

abbrev at_scale : (capital pf : ℕ) → Scale ℕ
at_scale c p = record {
  scale_usd = c;
  metrics = some (record { pf = some p; ann_geom_pct = none });
}

-- out of order, and below the noise floor from the third on
abbrev scales : List (Scale ℕ)
scales =
    at_scale 10000000 1100
    ∷ at_scale 1000000 1300
    ∷ record { scale_usd = 10; metrics = none }
    ∷ at_scale 100000 1350
    ∷ at_scale 100000000 1250
    ∷ []

-- the viable run ends at its first cliff, whatever comes after it
stops_at_cliff :
    (classify_verdict thousandths (defaults thousandths) scales) ≡ (linear_scalable, some 1000000)
unfolding classify_verdict classify_points valid sort_descending insert_descending measured with_run
    with_pf scan scan_step scan_start by_decay defaults greater decay_pct
stops_at_cliff = refl

let_proceed : judge_sweep thousandths scales (some 100000) ≡ proceed
unfolding judge_sweep provisional_judge_verdict is_cliff is_below five_times classify_verdict
    classify_points valid sort_descending insert_descending measured with_run with_pf scan scan_step
    scan_start by_decay defaults greater decay_pct
let_proceed = refl

judge_sweep-IsJudged_example : IsJudged thousandths scales (some 100000)
judge_sweep-IsJudged_example = judge_sweep-IsJudged thousandths scales (some 100000) let_proceed
