-- ===== src/Lib.antt =====
-- The research orchestrator: a queue of parameter sweeps, ticks that run one backtest each and judge
-- it, and drains that tick until there is something to decide. This library models that loop, from
-- the SQL statements on the queue to the digest of a drain.
--
-- How the parts interact. A drain (src/orchestrator/services/tick_drain.py) calls run_tick
-- (services/tick.py) until the summary of a tick (services/tick_summary.py) names a terminal action
-- or a cap is met. A tick recovers stuck rows, claims a row of the queue (repo/queue_write.py),
-- derives a cell of its sweep (services/sweep.py), writes an audit row (repo/hypothesis_audit.py),
-- submits a backtest to the JVM, polls it, judges it (services/analyze.py), logs an iteration
-- (repo/iterations_write.py), moves the row's pointer under a fence, and decides the row's next
-- state.
--
-- Files.
--   Prelude, Prelude/*: numbers, tests, lists and Python's dict, shared by all.
--   Builtins: floats, texts of values and other functions of Python's runtime, as parameters.
--   Verdict: the verdict texts. Analyze, Analyze/*: statistical_verdict, decision_verdict and
--     sample_size_adequate.
--   Sweep, Sweep/*: the sweep configuration, derive_combo, total_combos, split_ml_overrides,
--     build_ml_override_maps.
--   Queue, Queue/*: a row of research_queue (Schema), statements over a table (Table), insert_queue
--     (Insert), claim_next (Claiming), and the other statements (Transitions), each a function
--     from a table to a table and what the code reads back. Rows that another transaction has
--     locked are a parameter of a claim.
--   Tick, Tick/*: the tables of a tick and the requests it has sent (Tables), coroutines over them
--     that may raise (Monad), what a tick reads from outside (Context), steps 2 to 4 (Request, Submit),
--     4.5 to 6 (Polling, Finish), _decide_next_state (Deciding), run_tick and its handlers (Run), and
--     compute_tick_summary (Summary).
--   Drain, Drain/*: drain_ticks and its helpers (Loop).
--   Idempotency, Idempotency/*: the stores of services/idempotency.py (Memory, Durable), which
--     replay the response of a handler that is called again (Replay).
--   Review, Review/*: the verdict of a review and the hedging escalation of services/review.py (Checks),
--     and its checks of a plan (Plan) and of a graduation (Graduation).
--   Numbers, Numbers/*: float arithmetic and orders as parameters, for the numeric services.
--   Registry, Registry/*: services/registry_sync.py over the statements of repo/strategy_registry.py
--     on its table (Table).
--   Roster, Roster/*: services/provisional_roster.py.
--   Rebalance, Rebalance/*: services/rebalance.py: the clamping of weights (Guardrails), the floor on
--     entries (Notional), and rebalance_book over the rows of account_strategy and the journal (Book).
--   House, House/*: services/house_book.py, over the rows of signal_pool and account_strategy.
--   WalkForward, WalkForward/*: dates and folds (Dates), aggregation and the stability verdicts of
--     services/walk_forward.py.
--   Pool, Pool/*: return series and the marginal Sharpe contribution (Marginal), admission and
--     evictions of services/pool.py.
--   Capacity, Capacity/*: the verdicts of services/capacity.py on a sweep over capitals.
--
-- Time, failure and other sessions. Between two statements of a tick stands a checkpoint: there
-- any statements of other sessions take effect on the queue, other sessions insert rows into the
-- iteration log, and there the tick may die with an exception of any class. The audit rows, the
-- accounts and the status of a run outside its poll change by the tick's own statements only. A
-- drain that meets a class that `except Exception` does not catch ends with it. Ids and times are
-- natural numbers, times of the queue in microseconds and of a drain in milliseconds. The probes
-- of a poll are a list, since the deadline bounds them; the loop of a drain recurs on max_iters,
-- as its `for` does. The `while` of the evictions runs on fuel, the number of members, which is
-- enough since every pass removes one. No fuel is needed elsewhere.
--
-- Not modelled: the numerics behind the metrics of a run, the portfolio and hedging gates and
-- Optuna (their answers are inputs of a tick), the weights of the numpy optimisers (a parameter),
-- the activity log, the call of the registry sync from a tick (best-effort, on another table), the
-- texts of error messages and of hints, the HTTP layer, the clients, the other services.
pub mod Prelude
pub mod Builtins
pub mod Numbers
pub mod Verdict
pub mod Analyze
pub mod Sweep
pub mod Queue
pub mod Tick
pub mod Drain
pub mod Idempotency
pub mod Review
pub mod Registry
pub mod Roster
pub mod Rebalance
pub mod House
pub mod WalkForward
pub mod Pool
pub mod Capacity
