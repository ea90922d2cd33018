-- ===== src/Tick/Release.antt =====
-- The steps of a tick from the poll on, and the status that they leave the row in.
use research_orchestrator.Prelude.{
  ℕ, refl, Bool, true, false, Option, none, some, ◌==◌, Bool-cases, inl, inr,
}
use research_orchestrator.Prelude.Dict.{Dict}
use research_orchestrator.Builtins.{Builtins}
use research_orchestrator.Sweep.{Value}
use research_orchestrator.Verdict.{StatVerdict, Decision}
use research_orchestrator.Queue.{Claim, fail_queue, rollback_iter}
use research_orchestrator.Tick.{
  World, Result, ok, err, after, Env, checkpoint, update_queue, decide_next_state, Logged, Metrics,
  RunStatus, run_running, run_completed, run_failed, run_cancelled, run_error, run_unknown,
  run_timeout, other_status, polling, analyzing, logging, attaching, deciding, finish_iteration,
  check_attached, attach_fenced, conclude, log_iteration, with_metrics_of, with_existing,
  analyze_and_log, fail_run, hand_back, on_final, poll_and_finish, Iteration, judge, hedged,
  select_track_gate, is_hedging,
}
use research_orchestrator.Tick.Settles.{
  update_where-is_settled, IsOpen, IsClosed, after-IsOpen, after-IsClosed, checkpoint-IsOpen,
  decide_next_state-IsClosed,
}

module _ (b : Builtins) (e : Env (b.F)) (c : Claim) where
  open b use {F}

  abbrev q : ℕ
  q = c.queue_id

  finish_iteration-IsClosed :
      (run : ℕ) (l : Logged F) (w : World F) → IsClosed q (finish_iteration b e c run l w)
  unfolding finish_iteration
  finish_iteration-IsClosed run l w =
      after-IsClosed q (checkpoint e deciding w) _ (checkpoint-IsOpen q e deciding w) (λ u w'.
        returned (decide_next_state b e c l.stat l.verdict l.dsr w') _
          (decide_next_state-IsClosed b e c l.stat l.verdict l.dsr w'))
    where
      returned :
          {A B : Type 0} (r : Result A × World F) (f : A → B)
          → IsClosed q r
          → IsClosed q (after r.0 (λ a w'. (ok (f a), w')) r.1)
      returned (ok a, w') f h = h
      returned (err failure, w') f h = h

  check_attached-IsOpen : (n : ℕ) (w : World F) → IsOpen q (check_attached b e c n w)
  unfolding check_attached
  check_attached-IsOpen n w = elim (Bool-cases (n == 0)) [ inl z ↦ rw z refl | inr z ↦ rw z tt ]

  attach_fenced-IsOpen :
      (iteration run : ℕ) (w : World F) → IsOpen q (attach_fenced b e c iteration run w)
  unfolding attach_fenced update_queue
  attach_fenced-IsOpen iteration run w =
      after-IsOpen q (checkpoint e attaching w) _ (checkpoint-IsOpen q e attaching w)
        (λ u w'. check_attached-IsOpen _ _)

  conclude-IsClosed : (run : ℕ) (l : Logged F) (w : World F) → IsClosed q (conclude b e c run l w)
  unfolding conclude
  conclude-IsClosed run l w =
      after-IsClosed q (attach_fenced b e c l.iteration_id run w) _
        (attach_fenced-IsOpen l.iteration_id run w) (λ u w'. finish_iteration-IsClosed run l w')

  log_iteration-IsClosed :
      (run : ℕ) (combo : Dict Value) (audit : Option ℕ) (trials : ℕ) (m : Metrics F)
      (verdicts : StatVerdict × Decision) (w : World F)
      → IsClosed q (log_iteration b e c run combo audit trials m verdicts w)
  unfolding log_iteration
  log_iteration-IsClosed run combo audit trials m verdicts w =
      after-IsClosed q (checkpoint e logging w) _ (checkpoint-IsOpen q e logging w)
        (λ u w'. conclude-IsClosed run _ _)

  hedged-IsOpen : (passed : Option Bool) (w : World F) → IsOpen q (hedged passed, w)
  unfolding hedged
  hedged-IsOpen none w = refl
  hedged-IsOpen (some true) w = tt
  hedged-IsOpen (some false) w = tt

  judge-IsOpen : (run : ℕ) (m : Metrics F) (w : World F) → IsOpen q (judge b e c run m, w)
  unfolding judge select_track_gate
  judge-IsOpen run m w = elim (Bool-cases (is_hedging c.sweep_config.track)) [
    | inl h ↦ rw h (hedged-IsOpen (e.hedging_passed run) w)
    | inr h ↦ rw h tt
  ]

  with_metrics_of-IsClosed :
      (run : ℕ) (combo : Dict Value) (audit : Option ℕ) (trials : ℕ) (o : Option (Metrics F))
      (w : World F)
      → IsClosed q (with_metrics_of b e c run combo audit trials o w)
  unfolding with_metrics_of
  with_metrics_of-IsClosed run combo audit trials none w = refl
  with_metrics_of-IsClosed run combo audit trials (some m) w =
      after-IsClosed q (judge b e c run m, w) _ (judge-IsOpen run m w)
        (λ v w'. log_iteration-IsClosed run combo audit trials m v w')

  with_existing-IsClosed :
      (run : ℕ) (combo : Dict Value) (audit : Option ℕ) (trials : ℕ) (o : Option (Iteration F))
      (w : World F)
      → IsClosed q (with_existing b e c run combo audit trials o w)
  unfolding with_existing
  with_existing-IsClosed run combo audit trials none w =
      with_metrics_of-IsClosed run combo audit trials _ w
  with_existing-IsClosed run combo audit trials (some i) w = conclude-IsClosed run _ w

  analyze_and_log-IsClosed :
      (run : ℕ) (combo : Dict Value) (audit : Option ℕ) (trials : ℕ) (w : World F)
      → IsClosed q (analyze_and_log b e c run combo audit trials w)
  unfolding analyze_and_log
  analyze_and_log-IsClosed run combo audit trials w =
      after-IsClosed q (checkpoint e analyzing w) _ (checkpoint-IsOpen q e analyzing w)
        (λ u w'. with_existing-IsClosed run combo audit trials _ w')

  fail_run-IsClosed : (run : ℕ) (s : RunStatus) (w : World F) → IsClosed q (fail_run b e c run s w)
  unfolding fail_run update_queue fail_queue
  fail_run-IsClosed run s w = update_where-is_settled q _ w.queue (λ r. refl)

  hand_back-IsClosed :
      (run : ℕ) (s : RunStatus) (w : World F) → IsClosed q (hand_back b e c run s w)
  unfolding hand_back update_queue rollback_iter
  hand_back-IsClosed run s w = update_where-is_settled q _ w.queue (λ r. refl)

  on_final-IsClosed :
      (run : ℕ) (combo : Dict Value) (audit : Option ℕ) (trials : ℕ) (s : RunStatus) (w : World F)
      → IsClosed q (on_final b e c run combo audit trials s w)
  unfolding on_final
  on_final-IsClosed run combo audit trials run_completed w =
      analyze_and_log-IsClosed run combo audit trials w
  on_final-IsClosed run combo audit trials run_failed w = fail_run-IsClosed run run_failed w
  on_final-IsClosed run combo audit trials run_cancelled w = fail_run-IsClosed run run_cancelled w
  on_final-IsClosed run combo audit trials run_error w = fail_run-IsClosed run run_error w
  on_final-IsClosed run combo audit trials run_running w = hand_back-IsClosed run run_running w
  on_final-IsClosed run combo audit trials run_unknown w = hand_back-IsClosed run run_unknown w
  on_final-IsClosed run combo audit trials run_timeout w = hand_back-IsClosed run run_timeout w
  on_final-IsClosed run combo audit trials (other_status s) w =
      hand_back-IsClosed run (other_status s) w

  pub poll_and_finish-IsClosed :
      (run : ℕ) (combo : Dict Value) (audit : Option ℕ) (trials : ℕ) (skip : Bool) (w : World F)
      → IsClosed q (poll_and_finish b e c run combo audit trials skip w)
  unfolding poll_and_finish
  poll_and_finish-IsClosed run combo audit trials skip w =
      after-IsClosed q (checkpoint e polling w) _ (checkpoint-IsOpen q e polling w)
        (λ u w'. on_final-IsClosed run combo audit trials _ w')
