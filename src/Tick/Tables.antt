-- ===== src/Tick/Tables.antt =====
-- The state that a tick reads and writes: the tables it touches, and what it sends to the JVM.
use research_orchestrator.Prelude.{
  ℕ, ◌+◌, String, str_eq, Bool, true, false, ◌&&◌, ◌||◌, Option, none, some, List, [], ◌∷◌, ◌==◌,
  if◌then◌else◌, max, is_none, is_some,
}
use research_orchestrator.Prelude.Dict.{Dict}
use research_orchestrator.Sweep.{Value}
use research_orchestrator.Verdict.{StatVerdict, Decision}
use research_orchestrator.Queue.{Row}

-- backtest_run.status; `other_status` is any other text.
pub data RunStatus : Type 0 where
  run_running run_completed run_failed run_cancelled run_error run_unknown run_timeout : RunStatus
  other_status : String → RunStatus

-- A row of research_iteration_log. `dsr` and `pf` stand in its `metrics_snapshot`.
pub record Iteration (F : Type 0) : Type 0 where
  pub iteration_id : ℕ
  pub strategy_code : String
  pub iteration_number : ℕ
  pub backtest_run_id : ℕ
  pub params_snapshot : Dict Value
  pub statistical_verdict : StatVerdict
  pub verdict : Decision
  pub sample_size_adequate : Bool
  pub n_trades : ℕ
  pub dsr : Option F
  pub pf : Option F
  pub created_by : String

-- A row of hypothesis_audit. The null screen writes rows with its own decision text.
pub record Audit : Type 0 where
  pub audit_id : ℕ
  pub queue_id : ℕ
  pub strategy_code : String
  pub symbol : Option String
  pub interval_name : String
  pub params_snapshot : Dict Value
  pub iteration_id : Option ℕ
  pub statistical_verdict : Option StatVerdict
  pub decision_verdict : Option Decision
  pub null_screen_draw : Bool
  pub created_by : String

pub record Account : Type 0 where
  pub account_strategy_id : ℕ
  pub strategy_code : String
  pub account_id : ℕ
  pub is_deleted : Bool
  pub allow_long : Option Bool
  pub allow_short : Option Bool

-- The request to the JVM: the fields that a tick chooses.
pub record Payload : Type 0 where
  pub account_strategy_id : ℕ
  pub strategy_code : String
  pub asset : String
  pub interval_name : String
  pub start_time : String
  pub allow_long : Bool
  pub allow_short : Bool
  pub strategy_param_overrides : Dict Value
  pub ml_overrides : Dict (Dict Value)
  pub universe : List String

-- The newest rows stand first in `iterations` and `audits`; `submitted` and `papers` grow at the front.
pub record World (F : Type 0) : Type 0 where
  pub queue : List Row
  pub iterations : List (Iteration F)
  pub audits : List Audit
  pub accounts : List Account
  pub run_status : ℕ → Option RunStatus
  pub run_dsr : List (ℕ × F × ℕ)
  pub submitted : List Payload
  pub papers : List ℕ

-- repo/iterations_write.py: COALESCE(MAX(iteration_number), 0) + 1
module _ {F : Type 0} where
  unfoldable pub max_iteration : String → List (Iteration F) → ℕ
  max_iteration code [] = 0
  max_iteration code (i ∷ is) =
      let rest = max_iteration code is in
      if str_eq i.strategy_code code then max i.iteration_number rest else rest

  unfoldable pub next_iteration_number : String → List (Iteration F) → ℕ
  unfolding max_iteration
  next_iteration_number code is = max_iteration code is + 1

  unfoldable pub find_iteration_for_run : ℕ → List (Iteration F) → Option (Iteration F)
  find_iteration_for_run run [] = none
  find_iteration_for_run run (i ∷ is) =
      if i.backtest_run_id == run then some i else find_iteration_for_run run is

  unfoldable pub insert_iteration : Iteration F → World F → World F
  insert_iteration i w = record w { iterations = i ∷ w.iterations }

  unfoldable pub update_backtest_run_dsr : ℕ → Option F → ℕ → World F → World F
  update_backtest_run_dsr run none n w = w
  update_backtest_run_dsr run (some dsr) n w = record w { run_dsr = (run, dsr, n) ∷ w.run_dsr }

-- repo/hypothesis_audit.py
unfoldable pub is_unattached : ℕ → Audit → Bool
is_unattached q a =
    a.queue_id == q && is_none a.iteration_id && (if a.null_screen_draw then false else true)

unfoldable pub latest_unattached_for_queue : ℕ → List Audit → Option Audit
unfolding is_unattached
latest_unattached_for_queue q [] = none
latest_unattached_for_queue q (a ∷ others) =
    if is_unattached q a then some a else latest_unattached_for_queue q others

unfoldable pub counts_in : (symbol interval : String) → Audit → Bool
counts_in symbol interval a =
    (elim a.symbol [ none ↦ false | some s ↦ str_eq s symbol ])
    && str_eq a.interval_name interval
    && (is_some a.iteration_id || a.null_screen_draw)

unfoldable pub completed_trials : (symbol interval : String) → List Audit → ℕ
unfolding counts_in
completed_trials symbol interval [] = 0
completed_trials symbol interval (a ∷ others) =
    let rest = completed_trials symbol interval others in
    if counts_in symbol interval a then rest + 1 else rest

unfoldable pub count_data_universe_trials :
    (symbol interval : String) (external_declared : ℕ) → List Audit → ℕ
unfolding completed_trials
count_data_universe_trials symbol interval external others =
    completed_trials symbol interval others + external

unfoldable pub update_audit_verdict :
    (audit_id iteration_id : ℕ) → StatVerdict → Decision → List Audit → List Audit
update_audit_verdict id iteration stat decision [] = []
update_audit_verdict id iteration stat decision (a ∷ others) =
    let rest = update_audit_verdict id iteration stat decision others in
    if a.audit_id == id
    then (record a {
      iteration_id = some iteration;
      statistical_verdict = some stat;
      decision_verdict = some decision;
    })
      ∷ rest
    else a ∷ rest
