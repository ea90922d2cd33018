-- ===== src/Tick/Finish.antt =====
-- Steps 4.5 to 6 of services/tick.py: the poll, the gates, the iteration row and the fenced pointer.
use research_orchestrator.Prelude.{
  ℕ, String, Bool, true, false, Option, none, some, [], ◌==◌, if◌then◌else◌,
}
use Prim.Native.String.{◌++◌}
use research_orchestrator.Prelude.Dict.{Dict}
use research_orchestrator.Builtins.{Builtins}
use research_orchestrator.Sweep.{Value}
use research_orchestrator.Verdict.{StatVerdict, Decision}
use research_orchestrator.Analyze.{statistical_verdict, decision_verdict, sample_size_adequate}
use research_orchestrator.Queue.{running, Claim, fail_queue, rollback_iter, attach_iteration}
use research_orchestrator.Tick.Summary.{iterated}
use research_orchestrator.Tick.Tables.{
  World, RunStatus, run_completed, run_failed, run_cancelled, run_error, Iteration,
  next_iteration_number, find_iteration_for_run, insert_iteration, update_backtest_run_dsr,
  update_audit_verdict,
}
use research_orchestrator.Tick.Monad.{
  Coroutine, Result, domain, pure, raise, gets, modify, lift, ◌>>=◌, ◌>>◌,
}
use research_orchestrator.Tick.Context.{
  Env, Metrics, polling, analyzing, logging, attaching, deciding, at, checkpoint, update_queue,
}
use research_orchestrator.Tick.Deciding.{decide_next_state}
use research_orchestrator.Tick.Polling.{
  TickResult, Logged, poll_backtest_status, status_text, after_portfolio, select_track_gate,
}

module _ (b : Builtins) (e : Env (b.F)) (c : Claim) where
  open b use {F, show_int}

  abbrev track : Option String
  track = c.sweep_config.track

  unfoldable pub finish_iteration : (run : ℕ) → Logged F → Coroutine F (TickResult F)
  unfolding checkpoint decide_next_state
  finish_iteration run l =
      checkpoint e deciding
      >> (decide_next_state b e c l.stat l.verdict l.dsr >>= λ actions. pure (record {
        outcome = iterated;
        queue_id = some c.queue_id;
        iteration_id = some l.iteration_id;
        backtest_run_id = some run;
        stat = some l.stat;
        verdict = some l.verdict;
        notes = [];
        next_actions = actions;
        pf = l.pf;
        n_trades = some l.n_trades;
      }))

  unfoldable pub check_attached : ℕ → Coroutine F (Unit {0})
  check_attached affected =
      if affected == 0 then raise (domain "queue_row_reclaimed" true true) else pure tt

  -- The fence is the claim's own `started_at`.
  unfoldable pub attach_fenced : (iteration_id run : ℕ) → Coroutine F (Unit {0})
  unfolding checkpoint update_queue attach_iteration check_attached
  attach_fenced iteration run =
      checkpoint e attaching
      >> (update_queue (attach_iteration c.queue_id iteration run (some c.started_at))
          >>= check_attached)

  abbrev pub logged_of : Iteration F → Logged F
  logged_of i = record {
    iteration_id = i.iteration_id;
    stat = i.statistical_verdict;
    verdict = i.verdict;
    dsr = i.dsr;
    pf = i.pf;
    n_trades = i.n_trades;
  }

  abbrev pub stat_of : (run : ℕ) → Metrics F → StatVerdict
  stat_of run m =
      after_portfolio (e.portfolio_demotes run)
        (statistical_verdict b m.n_trades m.pf_low m.pf_high m.dsr).0

  unfoldable pub judge : (run : ℕ) → Metrics F → Result (StatVerdict × Decision)
  unfolding select_track_gate after_portfolio statistical_verdict decision_verdict
  judge run m =
      let stat = stat_of run m in
      select_track_gate track stat (decision_verdict b stat m.n_trades m.annualized)
        (e.hedging_passed run)

  unfoldable pub new_iteration :
      (run : ℕ) → Dict Value → Metrics F → StatVerdict × Decision → ℕ → Iteration F
  unfolding sample_size_adequate
  new_iteration run combo m verdicts number = record {
    iteration_id = e.fresh_iteration_id;
    strategy_code = c.strategy_code;
    iteration_number = number;
    backtest_run_id = run;
    params_snapshot = combo;
    statistical_verdict = verdicts.0;
    verdict = verdicts.1;
    sample_size_adequate = sample_size_adequate m.n_trades;
    n_trades = m.n_trades;
    dsr = m.dsr;
    pf = m.pf;
    created_by = e.agent_name;
  }

  unfoldable pub backfill : Option ℕ → StatVerdict × Decision → World F → World F
  unfolding update_audit_verdict
  backfill none verdicts w = w
  backfill (some audit) verdicts w = record w {
    audits = update_audit_verdict audit e.fresh_iteration_id verdicts.0 verdicts.1 w.audits;
  }

  -- Transaction A: the iteration, the deflated Sharpe ratio and the audit row, together.
  unfoldable pub commit_evidence :
      (run : ℕ)
      → Dict Value
      → (audit_id : Option ℕ) (cumulative_trials : ℕ) → Metrics F
      → StatVerdict × Decision
      → World F
      → World F
  unfolding new_iteration insert_iteration update_backtest_run_dsr backfill next_iteration_number
  commit_evidence run combo audit trials m verdicts w = backfill audit verdicts (
      update_backtest_run_dsr run m.dsr trials (
        insert_iteration
          (new_iteration run combo m verdicts (next_iteration_number c.strategy_code w.iterations))
          w))

  unfoldable pub conclude : (run : ℕ) → Logged F → Coroutine F (TickResult F)
  unfolding attach_fenced finish_iteration
  conclude run l = attach_fenced l.iteration_id run >> finish_iteration run l

  unfoldable pub log_iteration :
      (run : ℕ)
      → Dict Value
      → (audit_id : Option ℕ) (cumulative_trials : ℕ) → Metrics F
      → StatVerdict × Decision
      → Coroutine F (TickResult F)
  unfolding commit_evidence checkpoint conclude
  log_iteration run combo audit trials m verdicts =
      checkpoint e logging
      >> (modify (commit_evidence run combo audit trials m verdicts)
          >> conclude run (record {
            iteration_id = e.fresh_iteration_id;
            stat = verdicts.0;
            verdict = verdicts.1;
            dsr = m.dsr;
            pf = m.pf;
            n_trades = m.n_trades;
          }))

  unfoldable pub with_metrics_of :
      (run : ℕ)
      → Dict Value
      → (audit_id : Option ℕ) (cumulative_trials : ℕ) → Option (Metrics F)
      → Coroutine F (TickResult F)
  unfolding judge log_iteration
  with_metrics_of run combo audit trials none = raise (domain "backtest_row_missing" false false)
  with_metrics_of run combo audit trials (some m) =
      lift (judge run m) >>= log_iteration run combo audit trials m

  -- A run that already has its iteration is adopted: nothing is inserted.
  unfoldable pub with_existing :
      (run : ℕ)
      → Dict Value
      → (audit_id : Option ℕ) (cumulative_trials : ℕ) → Option (Iteration F)
      → Coroutine F (TickResult F)
  unfolding conclude with_metrics_of
  with_existing run combo audit trials (some i) = conclude run (logged_of i)
  with_existing run combo audit trials none =
      with_metrics_of run combo audit trials (e.metrics run trials)

  unfoldable pub analyze_and_log :
      (run : ℕ)
      → Dict Value
      → (audit_id : Option ℕ) (cumulative_trials : ℕ) → Coroutine F (TickResult F)
  unfolding checkpoint with_existing find_iteration_for_run
  analyze_and_log run combo audit trials =
      checkpoint e analyzing
      >> (gets (λ w. find_iteration_for_run run w.iterations)
          >>= with_existing run combo audit trials)

  unfoldable pub fail_run : (run : ℕ) → RunStatus → Coroutine F (TickResult F)
  unfolding update_queue fail_queue
  fail_run run s =
      update_queue (
        fail_queue (e.clock polling) c.queue_id
          ("["
            ++ at e polling
            ++ "] Backtest terminal status="
            ++ status_text s
            ++ " (run_id="
            ++ show_int run
            ++ ").")
          (some running))
      >> raise (domain "backtest_did_not_complete" false true)

  -- The poll cap is a latency, not an outcome: the row goes back to PENDING with its run.
  unfoldable pub hand_back : (run : ℕ) → RunStatus → Coroutine F (TickResult F)
  unfolding update_queue rollback_iter
  hand_back run s =
      update_queue (
        rollback_iter c.queue_id
          ("["
            ++ at e polling
            ++ "] Poll cap ("
            ++ show_int e.poll_timeout_s
            ++ "s) expired with run status="
            ++ status_text s
            ++ " (run_id="
            ++ show_int run
            ++ "); row reset to PENDING for resume — the run was NOT failed.")
          (some running))
      >> raise (domain "backtest_poll_cap_exceeded" true true)

  unfoldable pub on_final :
      (run : ℕ)
      → Dict Value
      → (audit_id : Option ℕ) (cumulative_trials : ℕ) → RunStatus
      → Coroutine F (TickResult F)
  unfolding analyze_and_log fail_run hand_back
  on_final run combo audit trials run_completed = analyze_and_log run combo audit trials
  on_final run combo audit trials run_failed = fail_run run run_failed
  on_final run combo audit trials run_cancelled = fail_run run run_cancelled
  on_final run combo audit trials run_error = fail_run run run_error
  on_final run combo audit trials s = hand_back run s

  unfoldable pub poll_and_finish :
      (run : ℕ)
      → Dict Value
      → (audit_id : Option ℕ) (cumulative_trials : ℕ) (skip_poll : Bool)
      → Coroutine F (TickResult F)
  unfolding checkpoint poll_backtest_status on_final
  poll_and_finish run combo audit trials skip =
      checkpoint e polling
      >> on_final run combo audit trials
          (if skip then run_completed else poll_backtest_status (e.probes run))
