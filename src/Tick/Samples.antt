-- ===== src/Tick/Samples.antt =====
-- A sample world, and ticks on it under several environments.
use research_orchestrator.Prelude.{
  ℕ, ◌≡◌, refl, true, false, Option, none, some, List, [], ◌∷◌, is_some, if◌then◌else◌, ◌++◌,
}
use research_orchestrator.Sweep.{SweepConfig, number}
use research_orchestrator.Verdict.{no_edge, discard}
use research_orchestrator.Queue.{
  Row, pending, Claim, claim_of, find, claim_next, first_by, update_where, claimable,
}
use research_orchestrator.Queue.Invariant.{cancel, run}
use research_orchestrator.Tick.{
  World, Env, Stage, Iteration, polling, logging, Metrics, accepted, Account, Audit, run_running,
  run_completed, reap, find_iteration_for_run, latest_unattached_for_queue,
}
use research_orchestrator.Tick.LoggedOnce.{IsLoggedOnce}

abbrev pub config : SweepConfig
config = record {
  strategy = none;
  params = record { name = "sl"; values = number false 1 0 ∷ number false 2 0 ∷ [] } ∷ [];
  n_trials = none;
  track = none;
  external_trials = some (number false 157 1);
  universe = [];
  allow_long = none;
  allow_short = some false;
  start_time = none;
}

abbrev pub row : Option ℕ → Row
row active = record {
  queue_id = 7;
  priority = 1;
  strategy_code = "LSR";
  interval_name = "1h";
  instrument = "BTCUSDT";
  sweep_config = config;
  hypothesis = none;
  status = pending;
  iteration_number = 0;
  iter_budget = 2;
  early_stop_on_no_edge = true;
  require_walk_forward = true;
  created_time = 10;
  created_by = "quant-researcher";
  started_at = none;
  completed_at = none;
  active_backtest_run_id = active;
  last_iteration_id = none;
  last_run_id = none;
  walk_forward_id = none;
  final_verdict = none;
  regime_label = none;
  regime_analysis = none;
  notes = none;
}

abbrev pub account : Account
account = record {
  account_strategy_id = 3;
  strategy_code = "LSR";
  account_id = 1;
  is_deleted = false;
  allow_long = none;
  allow_short = none;
}

abbrev pub audit : Audit
audit = record {
  audit_id = 50;
  queue_id = 7;
  strategy_code = "LSR";
  symbol = some "BTCUSDT";
  interval_name = "1h";
  params_snapshot = [];
  iteration_id = none;
  statistical_verdict = none;
  decision_verdict = none;
  null_screen_draw = false;
  created_by = "quant-runner";
}

-- One PENDING row, and a run 900 that is still RUNNING on the JVM.
abbrev pub world : Option ℕ → List Audit → World ℕ
world active audits = record {
  queue = row active ∷ [];
  iterations = [];
  audits = audits;
  accounts = account ∷ [];
  run_status = λ r. some run_running;
  run_dsr = [];
  submitted = [];
  papers = [];
}

-- A run whose interval lies above one, with a return of 14% a year.
abbrev pub metrics : Metrics ℕ
metrics = record {
  n_trades = 120;
  pf_low = some 1100000;
  pf_high = some 1900000;
  pf = some 1500000;
  dsr = some 950000;
  annualized = some 14000000;
}

abbrev pub env : Env ℕ
env = record {
  locked = λ q. false;
  clock = λ s. 2000;
  started = 1000;
  isoformat = λ t. "now";
  meanwhile = λ s. [];
  logged_meanwhile = λ s is. [];
  dies = λ s. none;
  rollback_fails = false;
  poll_timeout_s = 3600;
  track = none;
  agent_name = "quant-runner";
  research_account_id = some 1;
  fresh_audit_id = 51;
  fresh_iteration_id = 80;
  ask = λ c i. none;
  submit_backtest = λ p. accepted 901;
  probes = λ r. some run_running ∷ some run_completed ∷ [];
  metrics = λ r n. some metrics;
  portfolio_demotes = λ r. false;
  hedging_passed = λ r. none;
}

abbrev pub claimed : Option ℕ → Claim
claimed active = claim_of 1000 (row active)

-- The operator cancels while the run is polled.
abbrev pub cancelled_env : Env ℕ
cancelled_env = record env {
  meanwhile = λ s. elim s [ polling ↦ cancel 1500 7 "operator" ∷ [] | _ ↦ [] ];
}

-- Another session logs run 500 while this tick polls, unless it finds it logged.
abbrev pub other_iteration : ℕ → Iteration ℕ
other_iteration run = record {
  iteration_id = 79;
  strategy_code = "VBO";
  iteration_number = 1;
  backtest_run_id = run;
  params_snapshot = [];
  statistical_verdict = no_edge;
  verdict = discard;
  sample_size_adequate = true;
  n_trades = 150;
  dsr = none;
  pf = none;
  created_by = "quant-runner";
}

abbrev pub unless_logged : ℕ → List (Iteration ℕ) → List (Iteration ℕ)
unless_logged run is =
    if is_some (find_iteration_for_run run is) then [] else other_iteration run ∷ []

abbrev pub busy_env : Env ℕ
busy_env = record env {
  logged_meanwhile = λ s is. elim s [ polling ↦ unless_logged 500 is | _ ↦ [] ];
}

unless_logged-IsLoggedOnce :
    (run : ℕ) (is : List (Iteration ℕ))
    → IsLoggedOnce is
    → IsLoggedOnce (unless_logged run is ++ is)
unless_logged-IsLoggedOnce run is h = by_find (find_iteration_for_run run is) refl
  where
    by_find :
        (o : Option (Iteration ℕ))
        → find_iteration_for_run run is ≡ o
        → IsLoggedOnce ((if is_some o then [] else other_iteration run ∷ []) ++ is)
    by_find none e = (e, h)
    by_find (some i) e = h

pub busy-IsLoggedOnce :
    (s : Stage) (is : List (Iteration ℕ))
    → IsLoggedOnce is
    → IsLoggedOnce (busy_env.logged_meanwhile s is ++ is)
busy-IsLoggedOnce polling is h = unless_logged-IsLoggedOnce 500 is h
busy-IsLoggedOnce _ is h = h

-- Another session logs the run of this tick between its look at the log and its insert.
abbrev pub raced_env : Env ℕ
raced_env = record env {
  logged_meanwhile = λ s is. elim s [ logging ↦ unless_logged 901 is | _ ↦ [] ];
}

-- Unfolding this opens all that a claim computes with.
unfoldable pub statements : Unit {0}
unfolding claim_next reap claim_of find latest_unattached_for_queue first_by update_where claimable
statements = tt

-- The client disconnects while the run is polled.
abbrev pub dying_env : Env ℕ
dying_env = record env { dies = λ s. elim s [ polling ↦ some "CancelledError" | _ ↦ none ] }
