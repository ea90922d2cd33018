-- ===== src/Tick/Run.antt =====
-- `run_tick`, `_execute_after_claim` and `_rollback` of services/tick.py.
use research_orchestrator.Prelude.{
  ℕ, ◌+◌, String, Bool, true, false, Option, none, some, List, [], ◌∷◌, if◌then◌else◌, is_some,
}
use Prim.Native.String.{◌++◌}
use research_orchestrator.Prelude.Dict.{Dict}
use research_orchestrator.Builtins.{Builtins}
use research_orchestrator.Sweep.{Value}
use research_orchestrator.Queue.{Row, running, Claim, recover_stuck, claim_next, rollback_iter}
use research_orchestrator.Tick.Summary.{read_doc, empty_queue, sweep_exhausted}
use research_orchestrator.Tick.Tables.{
  World, RunStatus, run_running, run_completed, Audit, latest_unattached_for_queue,
  find_iteration_for_run, count_data_universe_trials,
}
use research_orchestrator.Tick.Monad.{
  Coroutine, Result, ok, err, Failure, domain, crash, pure, gets, ◌>>=◌, ◌>>◌,
}
use research_orchestrator.Tick.Context.{Env, resuming, checkpoint}
use research_orchestrator.Tick.Deciding.{requeue_action}
use research_orchestrator.Tick.Submit.{Submission, exhausted, submitted_as, derive_and_submit}
use research_orchestrator.Tick.Request.{external_declared_trials}
use research_orchestrator.Tick.Polling.{TickResult}
use research_orchestrator.Tick.Finish.{poll_and_finish}

abbrev pub stuck_running_buffer_s : ℕ
stuck_running_buffer_s = 300

-- A run to resume: its combo and audit row where one is unattached, and whether to skip the poll.
pub record Resume : Type 0 where
  pub run : ℕ
  pub combo : Dict Value
  pub audit_id : Option ℕ
  pub skip_poll : Bool

unfoldable pub resume_with : ℕ → Bool → Option Audit → (has_iteration : Bool) → Option Resume
resume_with run skip (some a) has =
    some (record {
      run = run;
      combo = a.params_snapshot;
      audit_id = some a.audit_id;
      skip_poll = skip;
    })
resume_with run skip none true =
    some (record { run = run; combo = []; audit_id = none; skip_poll = skip })
resume_with run skip none false = none

-- Only a run that is RUNNING or COMPLETED is resumed.
unfoldable pub resume_by : ℕ → Option RunStatus → Option Audit → Bool → Option Resume
unfolding resume_with
resume_by run (some run_running) audit has = resume_with run false audit has
resume_by run (some run_completed) audit has = resume_with run true audit has
resume_by run _ audit has = none

module _ {F : Type 0} where
  unfoldable pub to_resume : Claim → World F → Option Resume
  unfolding resume_by latest_unattached_for_queue find_iteration_for_run
  to_resume c w = elim c.active_backtest_run_id [
    | none ↦ none
    | some run ↦
        resume_by run (w.run_status run) (latest_unattached_for_queue c.queue_id w.audits)
          (is_some (find_iteration_for_run run w.iterations))
  ]

  abbrev pub empty_result : TickResult F
  empty_result = record {
    outcome = empty_queue;
    queue_id = none;
    iteration_id = none;
    backtest_run_id = none;
    stat = none;
    verdict = none;
    notes = "Queue has no PENDING/RUNNING rows. Enqueue with POST /queue." ∷ [];
    next_actions = requeue_action ∷ [];
    pf = none;
    n_trades = none;
  }

  abbrev pub exhausted_result : ℕ → String → TickResult F
  exhausted_result q note = record {
    outcome = sweep_exhausted;
    queue_id = some q;
    iteration_id = none;
    backtest_run_id = none;
    stat = none;
    verdict = none;
    notes = note ∷ [];
    next_actions = read_doc "queue.sweep_exhausted" ∷ [];
    pf = none;
    n_trades = none;
  }

module _ (b : Builtins) (e : Env (b.F)) where
  open b use {F, show_int, parse_float}

  unfoldable pub after_submission : Claim → Submission → Coroutine F (TickResult F)
  unfolding poll_and_finish
  after_submission c (exhausted note) = pure (exhausted_result c.queue_id note)
  after_submission c (submitted_as combo audit trials run) =
      poll_and_finish b e c run combo (some audit) trials false

  unfoldable pub resume_or_submit : Claim → Option Resume → Coroutine F (TickResult F)
  unfolding derive_and_submit after_submission poll_and_finish count_data_universe_trials
      external_declared_trials
  resume_or_submit c none = derive_and_submit b e c >>= after_submission c
  resume_or_submit c (some r) =
      gets (λ w.
        count_data_universe_trials c.instrument c.interval_name
          (external_declared_trials parse_float c.sweep_config) w.audits
        + 1)
      >>= λ trials. poll_and_finish b e c r.run r.combo r.audit_id trials r.skip_poll

  unfoldable pub execute_after_claim : Claim → Coroutine F (TickResult F)
  unfolding checkpoint to_resume resume_or_submit
  execute_after_claim c = checkpoint e resuming >> (gets (to_resume c) >>= resume_or_submit c)

  -- `_rollback`: where its own statement fails, that is logged and nothing more.
  unfoldable pub rollback : ℕ → String → List Row → List Row
  unfolding rollback_iter
  rollback q note t = if e.rollback_fails then t else (rollback_iter q note (some running) t).0

  -- The two `except` arms: every failure rolls back, but one whose path wrote the row itself.
  unfoldable pub on_failed : ℕ → Failure → List Row → List Row
  unfolding rollback
  on_failed q (domain code retryable true) t = t
  on_failed q (domain code retryable false) t =
      rollback q "Tick failed (domain error); rolled back to PENDING." t
  on_failed q (crash name) t =
      rollback q ("Tick crashed: " ++ name ++ "; rolled back to PENDING.") t

  unfoldable pub guarded : ℕ → Result (TickResult F) × World F → Result (TickResult F) × World F
  unfolding on_failed
  guarded q (ok r, w) = (ok r, w)
  guarded q (err failure, w) = (err failure, record w { queue = on_failed q failure w.queue })

  unfoldable pub run_claim : Option Claim → Coroutine F (TickResult F)
  unfolding execute_after_claim guarded
  run_claim none w = (ok empty_result, w)
  run_claim (some c) w = guarded c.queue_id (execute_after_claim c w)

  -- Step 0: rows that have been RUNNING for longer than the poll cap and a buffer.
  unfoldable pub reap : List Row → List Row
  unfolding recover_stuck
  reap t =
      (recover_stuck e.started (e.poll_timeout_s + stuck_running_buffer_s)
        ("["
          ++ e.isoformat e.started
          ++ "] RUNNING > "
          ++ show_int (e.poll_timeout_s + 300)
          ++ "s; auto-recovered to PENDING.")
        t).0

  unfoldable pub run_tick : Coroutine F (TickResult F)
  unfolding reap claim_next run_claim
  run_tick w =
      let (t, claim) = claim_next e.locked e.track e.started (reap w.queue) in
      run_claim claim (record w { queue = t })
