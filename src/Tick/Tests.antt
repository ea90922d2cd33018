-- ===== src/Tick/Tests.antt =====
-- Ticks on a sample world, and the theorems at these inputs.
use research_orchestrator.Prelude.{ℕ, ◌≡◌, refl, true, ◌||◌, none, some, List, [], ◌∷◌, length, map}
use research_orchestrator.Sweep.{is_tpe, derive_combo}
use research_orchestrator.Analyze.Tests.{micro}
use research_orchestrator.Verdict.{significant_edge, no_edge, pass, discard}
use research_orchestrator.Queue.{Status, pending, running, parked, completed, cancel_queue}
use research_orchestrator.Queue.Invariant.{run, apply}
use research_orchestrator.Tick.{
  World, run_tick, resolve_account_strategy, find_iteration_for_run, to_resume, execute_after_claim,
  alive, transition_lost, ok, decide_next_state, iterated, compute_tick_summary, retry_hint,
}
use research_orchestrator.Tick.Summaries.{branch, next_action-branch}
use research_orchestrator.Tick.Settles.{is_settled}
use research_orchestrator.Tick.Handover.{lost_fence, run_tick-is_settled}
use research_orchestrator.Tick.Submissions.{IsSentOnce, run_tick-IsSentOnce}
use research_orchestrator.Tick.Resuming.{run_tick_resumed}
use research_orchestrator.Tick.LoggedOnce.{IsLoggedOnce, run_tick-IsLoggedOnce}
use research_orchestrator.Tick.Routing.{IsRouted, decide_next_state-IsRouted}
use research_orchestrator.Tick.Cancelled.{decide_next_state-Lost}
use research_orchestrator.Tick.Samples.{
  row, audit, world, env, claimed, cancelled_env, busy_env, busy-IsLoggedOnce, raced_env,
  statements, dying_env,
}

run_tick-is_settled_example :
    (lost_fence (run_tick micro env (world none [])).0
      || is_settled 7 (run_tick micro env (world none [])).1.queue)
    ≡ true
unfolding statements
run_tick-is_settled_example = run_tick-is_settled micro env (world none []) (claimed none) refl refl

run_tick-IsSentOnce_example : IsSentOnce micro env [] (run_tick micro env (world none [])).1
run_tick-IsSentOnce_example = run_tick-IsSentOnce micro env (world none [])

run_tick_resumed_example : (run_tick micro env (world (some 900) (audit ∷ []))).1.submitted ≡ []
unfolding statements
run_tick_resumed_example =
    run_tick_resumed micro env (world (some 900) (audit ∷ [])) (claimed (some 900)) 900 refl refl
      refl

run_tick-IsLoggedOnce_example : IsLoggedOnce (run_tick micro busy_env (world none [])).1.iterations
run_tick-IsLoggedOnce_example =
    run_tick-IsLoggedOnce micro busy_env busy-IsLoggedOnce (λ run is h. h) (world none []) tt

abbrev running_world : World ℕ
running_world = record (world none []) { queue = record (row none) { status = running } ∷ [] }

decide_next_state-IsRouted_example :
    IsRouted 7
      (completed, some "DISCARD")
      (decide_next_state micro env (claimed none) no_edge discard none running_world).1.queue
unfolding statements
decide_next_state-IsRouted_example =
    decide_next_state-IsRouted micro env (claimed none) running_world
      (record (row none) { status = running }) refl refl no_edge discard none

abbrev parked_world : World ℕ
parked_world = record (world none []) { queue = record (row none) { status = parked } ∷ [] }

decide_next_state-Lost_example :
    decide_next_state micro env (claimed none) significant_edge pass none parked_world
    ≡ (ok (transition_lost micro 7), parked_world)
unfolding statements
decide_next_state-Lost_example =
    decide_next_state-Lost micro env (claimed none) parked_world refl significant_edge pass none

next_action-branch_example :
    (compute_tick_summary micro iterated
      (some no_edge)
      (some discard)
      []
      none
      (some 120)).next_action
    ≡ branch iterated (some discard) (retry_hint [])
next_action-branch_example =
    next_action-branch micro iterated (some no_edge) (some discard) [] none (some 120)

-- What the tests look at: each row's status, and how many requests were sent.
abbrev statuses : World ℕ → List Status × ℕ
statuses w = (map (λ r. r.status) w.queue, length w.submitted)

-- A passing run parks its row for the walk-forward; a cancel in flight keeps the row parked; a crash
-- in the poll leaves it PENDING with its run, which the next tick resumes.
ticks :
    (statuses (run_tick micro env (world none [])).1 ≡ (parked ∷ [], 1))
    × (statuses (run_tick micro cancelled_env (world none [])).1 ≡ (parked ∷ [], 1))
    × (statuses (run_tick micro dying_env (world none [])).1 ≡ (pending ∷ [], 1))
    × (statuses (run_tick micro env (world (some 900) (audit ∷ []))).1 ≡ (parked ∷ [], 0))
unfolding statements run_tick is_tpe derive_combo resolve_account_strategy run apply cancel_queue
    find_iteration_for_run to_resume execute_after_claim alive decide_next_state
ticks = (refl, refl, refl, refl)

-- What is logged: with a session that logs another run, and with one that logs the same run.
logs :
    (map (λ i. i.backtest_run_id) (run_tick micro busy_env (world none [])).1.iterations
      ≡ 901 ∷ 500 ∷ [])
    × (map (λ i. i.backtest_run_id) (run_tick micro raced_env (world none [])).1.iterations
        ≡ 901 ∷ 901 ∷ [])
unfolding statements run_tick is_tpe derive_combo resolve_account_strategy run apply cancel_queue
    find_iteration_for_run to_resume execute_after_claim alive decide_next_state
logs = (refl, refl)
