-- ===== src/Tick/Evidence.antt =====
-- How the steps from the poll on keep a predicate on the world.
use research_orchestrator.Prelude.{ℕ, String, ◌≡◌, refl, Bool, Option, none, some, List}
use research_orchestrator.Prelude.Dict.{Dict}
use research_orchestrator.Builtins.{Builtins}
use research_orchestrator.Sweep.{Value}
use research_orchestrator.Verdict.{StatVerdict, Decision}
use research_orchestrator.Queue.{Row, Claim}
use research_orchestrator.Tick.{
  World, Coroutine, Result, ok, err, after, Env, Stage, checkpoint, alive, Metrics, RunStatus,
  run_running, run_completed, run_failed, run_cancelled, run_error, run_unknown, run_timeout,
  other_status, Iteration, find_iteration_for_run, commit_evidence, judge, log_iteration,
  with_metrics_of, with_existing, analyze_and_log, on_final, poll_and_finish, analyzing, logging,
  polling,
}
use research_orchestrator.Tick.Frame.{after-keeps, conclude-keeps, fail_run-keeps, hand_back-keeps}

module _ (b : Builtins) (e : Env (b.F)) (c : Claim) (P : World (b.F) → Type 0)
    (on_queue : (w : World (b.F)) (t : List Row) → P w → P (record w { queue = t }))
    (on_papers : (w : World (b.F)) (p : List ℕ) → P w → P (record w { papers = p }))
    (on_meanwhile : (s : Stage) (w : World (b.F)) → P w → P (checkpoint e s w).1)
    (on_log : (run : ℕ) (combo : Dict Value) (audit : Option ℕ) (trials : ℕ) (m : Metrics (b.F))
        (verdicts : StatVerdict × Decision) (w : World (b.F))
      → find_iteration_for_run run w.iterations ≡ none
      → P w
      → P (
          commit_evidence b e c run combo audit trials m verdicts (checkpoint e logging w).1)) where
  open b use {F}

  alive-after :
      {A : Type 0} (o : Option String) (f : Unit {0} → Coroutine F A) (w : World F)
      → P w
      → P (f tt w).1
      → P (after (alive o) f w).1
  unfolding alive
  alive-after none f w h k = k
  alive-after (some name) f w h k = h

  log_iteration-keeps :
      (run : ℕ) (combo : Dict Value) (audit : Option ℕ) (trials : ℕ) (m : Metrics F)
      (verdicts : StatVerdict × Decision) (w : World F)
      → find_iteration_for_run run w.iterations ≡ none
      → P w
      → P (log_iteration b e c run combo audit trials m verdicts w).1
  unfolding log_iteration checkpoint
  log_iteration-keeps run combo audit trials m verdicts w new h =
      alive-after (e.dies logging) _ _ (on_meanwhile logging w h) (
        conclude-keeps b e c P on_queue on_papers on_meanwhile run _ _
          (on_log run combo audit trials m verdicts w new h))

  with_metrics_of-keeps :
      (run : ℕ) (combo : Dict Value) (audit : Option ℕ) (trials : ℕ) (o : Option (Metrics F))
      (w : World F)
      → find_iteration_for_run run w.iterations ≡ none
      → P w
      → P (with_metrics_of b e c run combo audit trials o w).1
  unfolding with_metrics_of
  with_metrics_of-keeps run combo audit trials none w new h = h
  with_metrics_of-keeps run combo audit trials (some m) w new h = judged (judge b e c run m)
    where
      judged :
          (r : Result (StatVerdict × Decision))
          → P (after r (log_iteration b e c run combo audit trials m) w).1
      judged (ok v) = log_iteration-keeps run combo audit trials m v w new h
      judged (err failure) = h

  with_existing-keeps :
      (run : ℕ) (combo : Dict Value) (audit : Option ℕ) (trials : ℕ) (o : Option (Iteration F))
      (w : World F)
      → find_iteration_for_run run w.iterations ≡ o
      → P w
      → P (with_existing b e c run combo audit trials o w).1
  unfolding with_existing
  with_existing-keeps run combo audit trials none w new h =
      with_metrics_of-keeps run combo audit trials _ w new h
  with_existing-keeps run combo audit trials (some i) w found h =
      conclude-keeps b e c P on_queue on_papers on_meanwhile run _ w h

  analyze_and_log-keeps :
      (run : ℕ) (combo : Dict Value) (audit : Option ℕ) (trials : ℕ) (w : World F)
      → P w
      → P (analyze_and_log b e c run combo audit trials w).1
  unfolding analyze_and_log
  analyze_and_log-keeps run combo audit trials w h =
      after-keeps b e c P on_queue on_papers on_meanwhile (checkpoint e analyzing w) _
        (on_meanwhile analyzing w h)
        (λ u w₁ h₁. with_existing-keeps run combo audit trials _ w₁ refl h₁)

  on_final-keeps :
      (run : ℕ) (combo : Dict Value) (audit : Option ℕ) (trials : ℕ) (s : RunStatus) (w : World F)
      → P w
      → P (on_final b e c run combo audit trials s w).1
  unfolding on_final
  on_final-keeps run combo audit trials run_completed w h =
      analyze_and_log-keeps run combo audit trials w h
  on_final-keeps run combo audit trials run_failed w h =
      fail_run-keeps b e c P on_queue on_papers on_meanwhile run run_failed w h
  on_final-keeps run combo audit trials run_cancelled w h =
      fail_run-keeps b e c P on_queue on_papers on_meanwhile run run_cancelled w h
  on_final-keeps run combo audit trials run_error w h =
      fail_run-keeps b e c P on_queue on_papers on_meanwhile run run_error w h
  on_final-keeps run combo audit trials run_running w h =
      hand_back-keeps b e c P on_queue on_papers on_meanwhile run run_running w h
  on_final-keeps run combo audit trials run_unknown w h =
      hand_back-keeps b e c P on_queue on_papers on_meanwhile run run_unknown w h
  on_final-keeps run combo audit trials run_timeout w h =
      hand_back-keeps b e c P on_queue on_papers on_meanwhile run run_timeout w h
  on_final-keeps run combo audit trials (other_status s) w h =
      hand_back-keeps b e c P on_queue on_papers on_meanwhile run (other_status s) w h

  pub poll_and_finish-keeps :
      (run : ℕ) (combo : Dict Value) (audit : Option ℕ) (trials : ℕ) (skip : Bool) (w : World F)
      → P w
      → P (poll_and_finish b e c run combo audit trials skip w).1
  unfolding poll_and_finish
  poll_and_finish-keeps run combo audit trials skip w h =
      after-keeps b e c P on_queue on_papers on_meanwhile (checkpoint e polling w) _
        (on_meanwhile polling w h) (λ u w₁ h₁. on_final-keeps run combo audit trials _ w₁ h₁)
