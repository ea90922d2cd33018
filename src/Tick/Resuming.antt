-- ===== src/Tick/Resuming.antt =====
-- A tick on a row whose run can be resumed.
use research_orchestrator.Prelude.{
  ℕ, String, ◌≡◌, refl, Bool, true, false, ◌||◌, ◌&&◌, Option, none, some, List, [], ◌∷◌, ◌++◌,
  ◌==◌, Bool-cases, inl, inr, is_some, arith,
}
use research_orchestrator.Builtins.{Builtins}
use research_orchestrator.Queue.{Claim, claim_next}
use research_orchestrator.Tick.{
  World, after, Env, Stage, Iteration, checkpoint, RunStatus, run_running, run_completed, Audit,
  Payload, find_iteration_for_run, latest_unattached_for_queue, Resume, to_resume, resume_by,
  resume_with, resume_or_submit, execute_after_claim, alive, run_claim, run_tick, reap, resuming,
}
use research_orchestrator.Tick.Submissions.{poll_and_finish-submitted, guarded-keeps}

module _ (b : Builtins) (e : Env (b.F)) where
  open b use {F}

  resume_with-is_some :
      (run : ℕ) (skip : Bool) (audit : Option Audit) (has : Bool)
      → (is_some audit || has) ≡ true
      → is_some (resume_with run skip audit has) ≡ true
  unfolding resume_with
  resume_with-is_some run skip none true h = refl
  resume_with-is_some run skip (some a) has h = refl
  resume_with-is_some run skip none false h = ground (arith, h)

  abbrev pub is_live : Option RunStatus → Bool
  is_live (some run_running) = true
  is_live (some run_completed) = true
  is_live _ = false

  -- The run can be resumed: it is RUNNING or COMPLETED, and its audit row or its iteration is known.
  abbrev pub is_resumable : (queue_id run : ℕ) → World F → Bool
  is_resumable q run w =
      is_live (w.run_status run)
      && (is_some (latest_unattached_for_queue q w.audits)
          || is_some (find_iteration_for_run run w.iterations))

  resume_by-is_some :
      (run : ℕ) (s : Option RunStatus) (audit : Option Audit) (has : Bool)
      → (is_live s && (is_some audit || has)) ≡ true
      → is_some (resume_by run s audit has) ≡ true
  unfolding resume_by
  resume_by-is_some run (some run_running) audit has h = resume_with-is_some run false audit has h
  resume_by-is_some run (some run_completed) audit has h = resume_with-is_some run true audit has h
  resume_by-is_some run _ audit has h = ground (arith, h)

  to_resume-is_some :
      (c : Claim) (run : ℕ) (w : World F)
      → c.active_backtest_run_id ≡ some run
      → is_resumable c.queue_id run w ≡ true
      → is_some (to_resume c w) ≡ true
  unfolding to_resume
  to_resume-is_some c run w active h = rw active (resume_by-is_some run _ _ _ h)

  resumed-submitted :
      (c : Claim) (sent : List Payload) (o : Option Resume) (w : World F)
      → is_some o ≡ true
      → w.submitted ≡ sent
      → (resume_or_submit b e c o w).1.submitted ≡ sent
  unfolding resume_or_submit
  resumed-submitted c sent none w s h = ground (arith, s)
  resumed-submitted c sent (some r) w s h =
      poll_and_finish-submitted b e c sent r.run r.combo r.audit_id _ r.skip_poll w h

  find_iteration_for_run-append :
      (run : ℕ) (is log : List (Iteration F))
      → is_some (find_iteration_for_run run log) ≡ true
      → is_some (find_iteration_for_run run (is ++ log)) ≡ true
  unfolding find_iteration_for_run
  find_iteration_for_run-append run [] log h = h
  find_iteration_for_run-append run (i ∷ is) log h = elim (Bool-cases (i.backtest_run_id == run)) [
    | inl e ↦ rw e refl
    | inr e ↦ rw e (find_iteration_for_run-append run is log h)
  ]

  -- What other sessions log does not make a run less resumable.
  is_resumable-append :
      (q run : ℕ) (s : Stage) (w : World F)
      → is_resumable q run w ≡ true
      → is_resumable q run (checkpoint e s w).1 ≡ true
  unfolding checkpoint
  is_resumable-append q run s w h =
      ground (
        arith,
        h,
        find_iteration_for_run-append run (e.logged_meanwhile s w.iterations) w.iterations,
      )

  execute_after_claim-submitted :
      (c : Claim) (run : ℕ) (w : World F)
      → c.active_backtest_run_id ≡ some run
      → is_resumable c.queue_id run w ≡ true
      → (execute_after_claim b e c w).1.submitted ≡ w.submitted
  unfolding execute_after_claim checkpoint
  execute_after_claim-submitted c run w active h = started (e.dies resuming)
    where
      v : World F
      v = (checkpoint e resuming w).1

      started :
          (o : Option String)
          → (after (alive o) (λ u v. resume_or_submit b e c (to_resume c v) v) v).1.submitted
            ≡ w.submitted
      started none =
          resumed-submitted c w.submitted (to_resume c v) v
            (to_resume-is_some c run v active (is_resumable-append c.queue_id run resuming w h))
            refl
      started (some name) = refl

  -- Where the claimed row points to a run that can be resumed, the tick sends the JVM nothing.
  pub run_tick_resumed :
      (w : World F) (c : Claim) (run : ℕ)
      → (claim_next e.locked e.track e.started (reap b e w.queue)).1 ≡ some c
      → c.active_backtest_run_id ≡ some run
      → is_resumable c.queue_id run w ≡ true
      → (run_tick b e w).1.submitted ≡ w.submitted
  unfolding run_tick run_claim
  run_tick_resumed w c run claimed active h = rw claimed (
      guarded-keeps b e (λ v. v.submitted ≡ w.submitted) (λ v t g. g) c.queue_id _
        (execute_after_claim-submitted c run _ active h))
