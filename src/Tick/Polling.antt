-- ===== src/Tick/Polling.antt =====
-- The poll, the gates on top of the statistical verdict, and the result of a tick.
use research_orchestrator.Prelude.{
  ℕ, String, str_eq, Bool, true, false, Option, none, some, List, [], ◌∷◌, if◌then◌else◌,
}
use research_orchestrator.Verdict.{
  StatVerdict, significant_edge, insufficient_evidence, Decision, pass, iterate,
}
use research_orchestrator.Tick.Summary.{Action, Outcome}
use research_orchestrator.Tick.Tables.{
  RunStatus, run_running, run_completed, run_failed, run_cancelled, run_error, run_unknown,
  run_timeout, other_status,
}
use research_orchestrator.Tick.Monad.{Result, ok, err, domain}

pub record TickResult (F : Type 0) : Type 0 where
  pub outcome : Outcome
  pub queue_id : Option ℕ
  pub iteration_id : Option ℕ
  pub backtest_run_id : Option ℕ
  pub stat : Option StatVerdict
  pub verdict : Option Decision
  pub notes : List String
  pub next_actions : List Action
  pub pf : Option F
  pub n_trades : Option ℕ

-- What the two ways to an iteration hand to `_finish_iteration`.
pub record Logged (F : Type 0) : Type 0 where
  pub iteration_id : ℕ
  pub stat : StatVerdict
  pub verdict : Decision
  pub dsr : Option F
  pub pf : Option F
  pub n_trades : ℕ

unfoldable pub is_terminal : RunStatus → Bool
is_terminal run_completed = true
is_terminal run_failed = true
is_terminal run_cancelled = true
is_terminal run_error = true
is_terminal _ = false

-- `(row["status"] if row else None) or "UNKNOWN"`
unfoldable pub probed : Option RunStatus → RunStatus
probed none = run_unknown
probed (some s) = s

-- The loop of `_poll_backtest_status` over the probes before the deadline, with `last_status`.
unfoldable pub poll_onto : RunStatus → List (Option RunStatus) → RunStatus
unfolding is_terminal probed
poll_onto last [] = last
poll_onto last (p ∷ ps) =
    let rest = poll_onto (probed p) ps in if is_terminal (probed p) then probed p else rest

unfoldable pub poll_backtest_status : List (Option RunStatus) → RunStatus
unfolding poll_onto
poll_backtest_status ps = poll_onto run_timeout ps

unfoldable pub status_text : RunStatus → String
status_text run_running = "RUNNING"
status_text run_completed = "COMPLETED"
status_text run_failed = "FAILED"
status_text run_cancelled = "CANCELLED"
status_text run_error = "ERROR"
status_text run_unknown = "UNKNOWN"
status_text run_timeout = "TIMEOUT"
status_text (other_status s) = s

-- The portfolio gate judges only a significant edge, and can only demote it.
unfoldable pub after_portfolio : (demotes : Bool) → StatVerdict → StatVerdict
after_portfolio true significant_edge = insufficient_evidence
after_portfolio demotes stat = stat

-- The hedging gate's verdict in place of the statistical and the economic one.
unfoldable pub hedged : Option Bool → Result (StatVerdict × Decision)
hedged none = err (domain "hedging_gate_error" true false)
hedged (some true) = ok (significant_edge, pass)
hedged (some false) = ok (significant_edge, iterate)

unfoldable pub is_hedging : Option String → Bool
is_hedging none = false
is_hedging (some t) = str_eq t "hedging"

unfoldable pub select_track_gate :
    (track : Option String)
    → StatVerdict
    → Decision
    → (passed : Option Bool) → Result (StatVerdict × Decision)
unfolding is_hedging hedged
select_track_gate track stat verdict passed =
    if is_hedging track then hedged passed else ok (stat, verdict)
