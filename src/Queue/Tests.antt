-- ===== src/Queue/Tests.antt =====
-- Sample tables, what the statements do on them, and the theorems at these inputs.
use research_orchestrator.Prelude.{
  ℕ, ◌≡◌, ◌≢◌, refl, Bool, true, false, Option, none, some, List, [], ◌∷◌, arith,
}
use research_orchestrator.Sweep.{SweepConfig}
use research_orchestrator.Queue.{
  Row, first_by, claimable, update_where, NewRow, Claim, pending, running, find, claim_next,
  claim_of, claimed_row, rollback_iter, recover_stuck, fail_queue, requeue_failed, attach_iteration,
}
use research_orchestrator.Queue.View.{IsKeyed}
use research_orchestrator.Queue.Claims.{Claimed, claim_next-Claimed, claim_next_exclusive}
use research_orchestrator.Queue.Invariant.{
  IsValid, Op, insert, claim, fail, requeue, run, run-IsValid,
}
use research_orchestrator.Queue.Fence.{
  Overdue, attach_iteration-recover_stuck, attach_iteration-claim_next,
}
use research_orchestrator.Queue.Retry.{WaitsAt, retry_same_cell}

abbrev config : SweepConfig
config = record {
  strategy = none;
  params = [];
  n_trials = none;
  track = none;
  external_trials = none;
  universe = [];
  allow_long = none;
  allow_short = none;
  start_time = none;
}

abbrev row : (queue_id priority created : ℕ) → Row
row q p created = record {
  queue_id = q;
  priority = p;
  strategy_code = "LSR";
  interval_name = "1h";
  instrument = "BTCUSDT";
  sweep_config = config;
  hypothesis = none;
  status = pending;
  iteration_number = 3;
  iter_budget = 5;
  early_stop_on_no_edge = true;
  require_walk_forward = true;
  created_time = created;
  created_by = "quant-researcher";
  started_at = none;
  completed_at = none;
  active_backtest_run_id = none;
  last_iteration_id = none;
  last_run_id = none;
  walk_forward_id = none;
  final_verdict = none;
  regime_label = none;
  regime_analysis = none;
  notes = none;
}

abbrev table : List Row
table = row 1 100 7 ∷ row 2 50 9 ∷ row 3 50 8 ∷ []

abbrev free : ℕ → Bool
free _ = false

abbrev third : Row
third = claimed_row 1000 (row 3 50 8)

-- Unfolding this opens all that a claim computes with.
statements : Unit {0}
unfolding claim_next first_by claimable update_where claimed_row claim_of recover_stuck find
statements = tt

table-IsKeyed : IsKeyed table
unfolding statements
table-IsKeyed = (refl, (refl, (refl, tt)))

-- The lower priority number goes first, and of equal ones the older row.
claim-table :
    claim_next free none 1000 table
    ≡ (row 1 100 7 ∷ row 2 50 9 ∷ third ∷ [], some (claim_of 1000 (row 3 50 8)))
unfolding statements
claim-table = refl

claim-table_again :
    claim_next free (some "trading") 2000 (row 1 100 7 ∷ row 2 50 9 ∷ third ∷ [])
    ≡ (row 1 100 7 ∷ claimed_row 2000 (row 2 50 9) ∷ third ∷ [], some (claim_of 2000 (row 2 50 9)))
unfolding statements
claim-table_again = refl

claim_next-Claimed_example : Claimed free none 1000 table (claim_next free none 1000 table)
claim_next-Claimed_example = claim_next-Claimed free none 1000 table table-IsKeyed

claim_next_exclusive_example :
    (claim_of 1000 (row 3 50 8)).queue_id ≢ (claim_of 2000 (row 2 50 9)).queue_id
claim_next_exclusive_example =
    claim_next_exclusive free free none (some "trading") 1000 2000 table _ _ _ _ table-IsKeyed
      claim-table claim-table_again

table-IsValid : IsValid table
unfolding find
table-IsValid = ground arith

abbrev new_row : NewRow
new_row = record {
  strategy_code = "VCB";
  interval_name = "1h";
  instrument = "ETHUSDT";
  sweep_config = config;
  hypothesis = none;
  priority = 10;
  iter_budget = 5;
  early_stop_on_no_edge = false;
  require_walk_forward = true;
  created_by = "operator";
}

abbrev script : List Op
script =
    insert 9 20 new_row (some "hedging")
    ∷ claim free none 1000
    ∷ fail 1500 9 "dead" none
    ∷ requeue 9 "again"
    ∷ []

run-IsValid_example : IsValid (run script table)
run-IsValid_example = run-IsValid script table table-IsValid

third-Overdue : Overdue (third ∷ []) 3 1000 9000000 5 third
unfolding find claimed_row
third-Overdue = record { held = refl; is_running = refl; since = refl; late = omega arith }

attach_iteration-recover_stuck_example :
    let t' = (recover_stuck 9000000 5 "reaped" (third ∷ [])).0 in
    attach_iteration 3 70 80 (some 1000) t' ≡ (t', 0)
attach_iteration-recover_stuck_example =
    attach_iteration-recover_stuck 9000000 5 "reaped" (third ∷ []) 3 1000 70 80 third
      (unfold find in (refl, tt)) third-Overdue

abbrev reclaimed : List Row × Option Claim
reclaimed = claim_next free none 9000001 (recover_stuck 9000000 5 "reaped" (third ∷ [])).0

abbrev second_claim : Claim
second_claim = record (claim_of 1000 (row 3 50 8)) { started_at = 9000001 }

attach_iteration-claim_next_example :
    attach_iteration 3 70 80 (some 1000) reclaimed.0 ≡ (reclaimed.0, 0)
unfolding statements
attach_iteration-claim_next_example =
    attach_iteration-claim_next 9000000 5 "reaped" (third ∷ []) reclaimed.0 3 1000 70 80 third free
      none 9000001 second_claim (unfold find in (refl, tt)) third-Overdue refl (omega arith)

retry_same_cell_example :
    let t' = row 1 100 7 ∷ row 2 50 9 ∷ third ∷ [] in
    WaitsAt 3 (find 3 (rollback_iter 3 "dead" (some running) t').0)
    × WaitsAt 3 (find 3 (recover_stuck 9000000 5 "dead" t').0)
    × WaitsAt 3
        (find 3 (requeue_failed 3 "again" (fail_queue 9000000 3 "dead" (some running) t').0).0)
unfolding claim_of
retry_same_cell_example =
    retry_same_cell free none 1000 table _ (claim_of 1000 (row 3 50 8)) 9000000 5 "dead" "again"
      table-IsKeyed claim-table (omega arith)
