-- ===== src/Queue/Insert.antt =====
-- `insert_queue` of repo/queue_write.py.
use research_orchestrator.Prelude.{ℕ, String, Bool, Option, none, some, List, [], ◌∷◌, ◌++◌}
use research_orchestrator.Sweep.{SweepConfig}
use research_orchestrator.Queue.Schema.{Row, pending}

-- The arguments of `insert_queue`.
pub record NewRow : Type 0 where
  pub strategy_code : String
  pub interval_name : String
  pub instrument : String
  pub sweep_config : SweepConfig
  pub hypothesis : Option String
  pub priority : ℕ
  pub iter_budget : ℕ
  pub early_stop_on_no_edge : Bool
  pub require_walk_forward : Bool
  pub created_by : String

-- `{**sweep_config, "track": track}`, when a track is given
unfoldable pub stamp_track : Option String → SweepConfig → SweepConfig
stamp_track none c = c
stamp_track (some t) c = record c { track = some t }

-- `fresh` is what gen_random_uuid() returns.
unfoldable pub insert_queue : (fresh now : ℕ) → NewRow → Option String → List Row → List Row × Row
unfolding stamp_track
insert_queue fresh now n track t =
    let row : Row = record {
      queue_id = fresh;
      priority = n.priority;
      strategy_code = n.strategy_code;
      interval_name = n.interval_name;
      instrument = n.instrument;
      sweep_config = stamp_track track n.sweep_config;
      hypothesis = n.hypothesis;
      status = pending;
      iteration_number = 0;
      iter_budget = n.iter_budget;
      early_stop_on_no_edge = n.early_stop_on_no_edge;
      require_walk_forward = n.require_walk_forward;
      created_time = now;
      created_by = n.created_by;
      started_at = none;
      completed_at = none;
      active_backtest_run_id = none;
      last_iteration_id = none;
      last_run_id = none;
      walk_forward_id = none;
      final_verdict = none;
      regime_label = none;
      regime_analysis = none;
      notes = none;
    } in
    (t ++ row ∷ [], row)
