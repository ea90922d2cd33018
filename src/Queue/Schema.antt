-- ===== src/Queue/Schema.antt =====
-- A row of `research_queue`. Ids are numbers, and so are times, in microseconds.
use research_orchestrator.Prelude.{ℕ, String, Bool, true, false, Option, none, some}
use research_orchestrator.Sweep.{SweepConfig}
use Prim.Native.String.{◌++◌}

pub data Status : Type 0 where
  pending running parked completed failed : Status

abbrev pub status_eq : Status → Status → Bool
status_eq pending pending = true
status_eq running running = true
status_eq parked parked = true
status_eq completed completed = true
status_eq failed failed = true
status_eq _ _ = false

abbrev pub is_pending : Status → Bool
is_pending pending = true
is_pending _ = false

pub record Row : Type 0 where
  pub queue_id : ℕ
  pub priority : ℕ
  pub strategy_code : String
  pub interval_name : String
  pub instrument : String
  pub sweep_config : SweepConfig
  pub hypothesis : Option String
  pub status : Status
  pub iteration_number : ℕ
  pub iter_budget : ℕ
  pub early_stop_on_no_edge : Bool
  pub require_walk_forward : Bool
  pub created_time : ℕ
  pub created_by : String
  pub started_at : Option ℕ
  pub completed_at : Option ℕ
  pub active_backtest_run_id : Option ℕ
  pub last_iteration_id : Option ℕ
  pub last_run_id : Option ℕ
  pub walk_forward_id : Option ℕ
  pub final_verdict : Option String
  pub regime_label : Option String
  pub regime_analysis : Option String
  pub notes : Option String

-- COALESCE(notes, '') || E'\n' || note
unfoldable pub add_note : String → Option String → Option String
add_note note none = some ("\n" ++ note)
add_note note (some old) = some (old ++ ("\n" ++ note))
