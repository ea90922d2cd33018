-- ===== src/Queue/Claiming.antt =====
-- `claim_next` of repo/queue_write.py.
use research_orchestrator.Prelude.{
  ℕ, ◌+◌, String, str_eq, Bool, true, not, ◌&&◌, Option, none, some, List, ◌==◌,
}
use research_orchestrator.Sweep.{SweepConfig}
use research_orchestrator.Queue.Schema.{Row, running, is_pending}
use research_orchestrator.Queue.Table.{update_where, first_by}

-- The track filter of the claim: no track claims any row, and a row without a track is `trading`.
unfoldable pub matches_track : Option String → Option String → Bool
matches_track none row_track = true
matches_track (some t) (some r) = str_eq r t
matches_track (some t) none = str_eq t "trading"

-- Rows that the claim may take. `locked` is what another open transaction holds (SKIP LOCKED).
unfoldable pub claimable : (locked : ℕ → Bool) → Option String → Row → Bool
unfolding matches_track
claimable locked track r =
    is_pending r.status && matches_track track r.sweep_config.track && not (locked r.queue_id)

-- What `claim_next` returns: the columns before the update, and `started_at` after it.
pub record Claim : Type 0 where
  pub queue_id : ℕ
  pub strategy_code : String
  pub interval_name : String
  pub instrument : String
  pub sweep_config : SweepConfig
  pub prior_iter : ℕ
  pub iter_budget : ℕ
  pub early_stop_on_no_edge : Bool
  pub require_walk_forward : Bool
  pub started_at : ℕ
  pub active_backtest_run_id : Option ℕ

unfoldable pub claim_of : ℕ → Row → Claim
claim_of now r = record {
  queue_id = r.queue_id;
  strategy_code = r.strategy_code;
  interval_name = r.interval_name;
  instrument = r.instrument;
  sweep_config = r.sweep_config;
  prior_iter = r.iteration_number;
  iter_budget = r.iter_budget;
  early_stop_on_no_edge = r.early_stop_on_no_edge;
  require_walk_forward = r.require_walk_forward;
  started_at = now;
  active_backtest_run_id = r.active_backtest_run_id;
}

unfoldable pub claimed_row : ℕ → Row → Row
claimed_row now r = record r {
  status = running;
  iteration_number = r.iteration_number + 1;
  started_at = some now;
}

-- UPDATE … FROM claimed … RETURNING: the row that the query selected, if any
unfoldable pub claim_selected : (now : ℕ) → List Row → Option Row → List Row × Option Claim
unfolding claim_of claimed_row
claim_selected now t none = (t, none)
claim_selected now t (some r) =
    ((update_where (λ q. q.queue_id == r.queue_id) (claimed_row now) t).0, some (claim_of now r))

unfoldable pub claim_next :
    (locked : ℕ → Bool) (track : Option String) (now : ℕ) → List Row → List Row × Option Claim
unfolding claim_selected
claim_next locked track now t = claim_selected now t (first_by (claimable locked track) t)
