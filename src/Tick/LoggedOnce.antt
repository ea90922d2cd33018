-- ===== src/Tick/LoggedOnce.antt =====
-- The rows of the iteration log (repo/iterations_write.py), by the run that they are of.
use research_orchestrator.Prelude.{
  ℕ, String, ◌≡◌, Bool, false, Option, none, some, List, [], ◌∷◌, ◌++◌,
}
use research_orchestrator.Prelude.Dict.{Dict}
use research_orchestrator.Builtins.{Builtins}
use research_orchestrator.Sweep.{Value}
use research_orchestrator.Verdict.{StatVerdict, Decision}
use research_orchestrator.Queue.{Claim}
use research_orchestrator.Tick.{
  World, Result, ok, err, after, Env, Stage, logging, checkpoint, Metrics, Iteration,
  find_iteration_for_run, commit_evidence, update_backtest_run_dsr, backfill, poll_and_finish,
  derive_and_submit, Submission, exhausted, submitted_as, after_submission, Resume, to_resume,
  resume_or_submit, execute_after_claim, alive, run_tick, resuming,
}
use research_orchestrator.Tick.Evidence.{poll_and_finish-keeps}
use research_orchestrator.Tick.Submissions.{derive_and_submit-leads, run_tick-leads}

-- No two iterations are of one run.
abbrev pub IsLoggedOnce : {F : Type 0} → List (Iteration F) → Type 0
IsLoggedOnce [] = Unit
IsLoggedOnce (i ∷ is) = (find_iteration_for_run i.backtest_run_id is ≡ none) × IsLoggedOnce is

module _ (b : Builtins) (e : Env (b.F))
    (others : (s : Stage) (is : List (Iteration (b.F)))
      → IsLoggedOnce is
      → IsLoggedOnce (e.logged_meanwhile s is ++ is))
    (unraced : (run : ℕ) (is : List (Iteration (b.F)))
      → find_iteration_for_run run is ≡ none
      → find_iteration_for_run run (e.logged_meanwhile logging is ++ is) ≡ none) where
  open b use {F}

  IsLogged : World F → Type 0
  IsLogged w = IsLoggedOnce w.iterations

  meanwhile-IsLogged : (s : Stage) (w : World F) → IsLogged w → IsLogged (checkpoint e s w).1
  unfolding IsLogged checkpoint
  meanwhile-IsLogged s w h = others s w.iterations h

  commit_evidence-IsLogged :
      (c : Claim) (run : ℕ) (combo : Dict Value) (audit : Option ℕ) (trials : ℕ) (m : Metrics F)
      (verdicts : StatVerdict × Decision) (w : World F)
      → find_iteration_for_run run w.iterations ≡ none
      → IsLogged w
      → IsLogged
          (commit_evidence b e c run combo audit trials m verdicts (checkpoint e logging w).1)
  unfolding commit_evidence IsLogged checkpoint
  commit_evidence-IsLogged c run combo audit trials m verdicts w new h =
      filled audit _ (stored m.dsr _ (unraced run w.iterations new, others logging w.iterations h))
    where
      filled : (o : Option ℕ) (v : World F) → IsLogged v → IsLogged (backfill b e c o verdicts v)
      filled none v g = g
      filled (some a) v g = g

      stored :
          (o : Option F) (v : World F)
          → IsLogged v
          → IsLogged (update_backtest_run_dsr run o trials v)
      stored none v g = g
      stored (some d) v g = g

  poll_and_finish-IsLogged :
      (c : Claim) (run : ℕ) (combo : Dict Value) (audit : Option ℕ) (trials : ℕ) (skip : Bool)
      (w : World F)
      → IsLogged w
      → IsLogged (poll_and_finish b e c run combo audit trials skip w).1
  unfolding IsLogged
  poll_and_finish-IsLogged c =
      poll_and_finish-keeps b e c IsLogged (λ w t h. h) (λ w p h. h) meanwhile-IsLogged
        (commit_evidence-IsLogged c)

  after_submission-IsLogged :
      (c : Claim) (r : Result Submission × World F)
      → IsLogged r.1
      → IsLogged (after r.0 (after_submission b e c) r.1).1
  unfolding after_submission
  after_submission-IsLogged c (ok (exhausted note), w) h = h
  after_submission-IsLogged c (ok (submitted_as combo audit trials run), w) h =
      poll_and_finish-IsLogged c run combo (some audit) trials false w h
  after_submission-IsLogged c (err failure, w) h = h

  resume_or_submit-IsLogged :
      (c : Claim) (o : Option Resume) (w : World F)
      → IsLogged w
      → IsLogged (resume_or_submit b e c o w).1
  unfolding resume_or_submit IsLogged
  resume_or_submit-IsLogged c none w h = after_submission-IsLogged c (derive_and_submit b e c w) (
      derive_and_submit-leads b e c IsLogged IsLogged (λ v g. g) (λ v t g. g) (λ v t g. g)
        (λ v p g. g) (λ v t g. g) meanwhile-IsLogged meanwhile-IsLogged w h)
  resume_or_submit-IsLogged c (some r) w h =
      poll_and_finish-IsLogged c r.run r.combo r.audit_id _ r.skip_poll w h

  execute-IsLogged :
      (c : Claim) (w : World F) → IsLogged w → IsLogged (execute_after_claim b e c w).1
  unfolding execute_after_claim checkpoint IsLogged
  execute-IsLogged c w h = started (e.dies resuming)
    where
      started :
          (o : Option String)
          → IsLogged
              (after
                (alive o)
                (λ u v. resume_or_submit b e c (to_resume c v) v)
                (checkpoint e resuming w).1).1
      started none = resume_or_submit-IsLogged c _ _ (others resuming w.iterations h)
      started (some name) = others resuming w.iterations h

  -- A tick keeps the iteration log at one row per run, whatever path it takes and wherever it dies:
  -- a run that is logged already is adopted, not logged again. It is assumed that the rows that
  -- other sessions insert on its way leave one row per run, and that between the tick's own look
  -- at the log and its insert no other session logs a run that was not logged: the table has no
  -- constraint that would keep two such inserts apart.
  pub run_tick-IsLoggedOnce :
      (w : World F) → IsLoggedOnce w.iterations → IsLoggedOnce (run_tick b e w).1.iterations
  unfolding IsLogged
  run_tick-IsLoggedOnce w h =
      run_tick-leads b e IsLogged IsLogged (λ v t g. g) (λ v t g. g) (λ v g. g) execute-IsLogged w h
