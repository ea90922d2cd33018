-- ===== src/Queue/Cancel.antt =====
-- An operator's cancel against the writes of a tick that is still in flight.
use research_orchestrator.Prelude.{ℕ, String, ◌≡◌, false, Option, none, some, List, [], ◌∷◌}
use research_orchestrator.Queue.{
  Row, running, selects, rollback_iter, park_exhausted, fail_queue, set_active_run, complete_queue,
  reset_to_pending, attach_iteration,
}

-- The writes that a tick makes to the row that it claimed under `expected_status='RUNNING'`.
pub data GuardedWrite : Type 0 where
  rollback reset : String → GuardedWrite
  park fail : (now : ℕ) → String → GuardedWrite
  complete : (now : ℕ) → String → Option ℕ → String → GuardedWrite
  set_run : ℕ → GuardedWrite

pub guarded_write : ℕ → GuardedWrite → List Row → List Row × ℕ
guarded_write q (rollback note) = rollback_iter q note (some running)
guarded_write q (reset note) = reset_to_pending q note (some running)
guarded_write q (park now note) = park_exhausted now q note (some running)
guarded_write q (fail now note) = fail_queue now q note (some running)
guarded_write q (complete now verdict wf note) = complete_queue now q verdict wf note (some running)
guarded_write q (set_run run) = set_active_run q run

-- All the writes that a tick makes to it: `attach_iteration` asks for the start, not for the status.
pub data TickWrite : Type 0 where
  guarded : GuardedWrite → TickWrite
  attach : (iteration run : ℕ) (started_at : Option ℕ) → TickWrite

pub tick_write : ℕ → TickWrite → List Row → List Row × ℕ
tick_write q (guarded w) = guarded_write q w
tick_write q (attach iteration run started) = attach_iteration q iteration run started

pub tick_writes : ℕ → List TickWrite → List Row → List Row
tick_writes q [] t = t
tick_writes q (w ∷ ws) t = tick_writes q ws (tick_write q w t).0

-- A row without its pointers to runs and to its last iteration.
abbrev pub without_pointers : Row → Row
without_pointers r = record r {
  last_iteration_id = none;
  last_run_id = none;
  active_backtest_run_id = none;
}

-- No row of this id is RUNNING.
NotRunning : ℕ → List Row → Type 0
NotRunning q [] = Unit
NotRunning q (r ∷ rs) = (selects q (some running) r ≡ false) × NotRunning q rs
