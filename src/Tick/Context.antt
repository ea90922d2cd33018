-- ===== src/Tick/Context.antt =====
-- What one tick reads from outside: the settings, the clock, fresh ids, the answers of the JVM and
-- of the samplers, and what other sessions do to the queue and the iteration log between two steps of it.
use research_orchestrator.Prelude.{ℕ, String, Bool, Option, none, some, List, ◌++◌}
use research_orchestrator.Prelude.Dict.{Dict}
use research_orchestrator.Sweep.{Value, SweepConfig}
use research_orchestrator.Queue.{Row}
use research_orchestrator.Queue.Invariant.{Op, run}
use research_orchestrator.Tick.Tables.{Payload, RunStatus, Iteration}
use research_orchestrator.Tick.Monad.{Coroutine, Result, ok, err, crash}

-- The points between two statements of a tick at which other sessions commit, and at which the
-- tick itself may die.
pub data Stage : Type 0 where
  resuming planning auditing submitting dispatched polling analyzing logging attaching deciding :
      Stage

-- The columns of the finished run that the analysis turns into verdicts.
pub record Metrics (F : Type 0) : Type 0 where
  pub n_trades : ℕ
  pub pf_low : Option F
  pub pf_high : Option F
  pub pf : Option F
  pub dsr : Option F
  pub annualized : Option F

-- How JvmClient.submit_backtest ends: a run id, its own OrchestratorError, or another exception.
pub data Reply : Type 0 where
  accepted : (run : ℕ) → Reply
  rejected : (code : String) (retryable : Bool) → Reply
  lost : (class_name : String) → Reply

pub record Env (F : Type 0) : Type 0 where
  pub locked : ℕ → Bool
  pub clock : Stage → ℕ
  pub started : ℕ
  pub isoformat : ℕ → String
  pub meanwhile : Stage → List Op
  -- the rows that other sessions insert into the iteration log, which they find as it stands
  pub logged_meanwhile : Stage → List (Iteration F) → List (Iteration F)
  pub dies : Stage → Option String
  pub rollback_fails : Bool
  pub poll_timeout_s : ℕ
  pub track : Option String
  pub agent_name : String
  pub research_account_id : Option ℕ
  pub fresh_audit_id : ℕ
  pub fresh_iteration_id : ℕ
  -- Optuna's next point of a TPE sweep; `none` where it raises.
  pub ask : SweepConfig → ℕ → Option (Dict Value)
  -- JvmClient.submit_backtest
  pub submit_backtest : Payload → Reply
  -- backtest_run.status at each probe before the poll cap
  pub probes : ℕ → List (Option RunStatus)
  -- the finished run under `cumulative_trials`; `none` where its row is missing
  pub metrics : ℕ → ℕ → Option (Metrics F)
  -- the portfolio gate's `demote`
  pub portfolio_demotes : ℕ → Bool
  -- the hedging gate's `passed`; `none` where its evaluation raises
  pub hedging_passed : ℕ → Option Bool

-- NOW() of a statement, as text
unfoldable pub at : {F : Type 0} → Env F → Stage → String
at e s = e.isoformat (e.clock s)

unfoldable pub alive : Option String → Result (Unit {0})
alive none = ok tt
alive (some c) = err (crash c)

unfoldable pub checkpoint : {F : Type 0} → Env F → Stage → Coroutine F (Unit {0})
unfolding alive
checkpoint e s w = (
  alive (e.dies s),
  record w {
    queue = run (e.meanwhile s) w.queue;
    iterations = e.logged_meanwhile s w.iterations ++ w.iterations;
  },
)

-- One guarded UPDATE on the queue, with the number of rows it affects.
unfoldable pub update_queue : {F : Type 0} → (List Row → List Row × ℕ) → Coroutine F ℕ
update_queue f w = (ok (f w.queue).1, record w { queue = (f w.queue).0 })
