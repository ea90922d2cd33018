-- ===== src/Drain/Loop.antt =====
-- `drain_ticks` and its helpers. Times are in milliseconds.
use research_orchestrator.Prelude.{
  ℕ, zero, suc, ◌+◌, ◌*◌, String, str_eq, Bool, true, false, ◌||◌, Option, none, some, List, [],
  ◌∷◌, leb, ◌==◌, if◌then◌else◌,
}
use research_orchestrator.Builtins.{Builtins}
use research_orchestrator.Verdict.{
  StatVerdict, significant_edge, insufficient_evidence, no_edge, Decision, discard,
}
use research_orchestrator.Tick.{
  World, Env, Result, ok, err, Failure, domain, crash, TickResult, Outcome, iterated, TickSummary,
  compute_tick_summary, Next, go_on, graduate, pivot, queue_empty, wait, infra_fail, Action, retry,
  call, read_doc, contact_human, run_tick,
}

-- How a drain ends: with a terminal action, or with an exception that it does not catch, which ends
-- it without a digest.
pub data Terminal : Type 0 where
  drained_graduate drained_pivot drained_empty drained_infra_fail drained_config_fail
        max_iters_reached max_wall_clock_reached :
      Terminal
  raised : (class_name : String) → Terminal

-- An error envelope, by its code and whether it may be retried.
pub record LastError : Type 0 where
  pub error_code : String
  pub retryable : Bool

pub record Tally : Type 0 where
  pub iters : ℕ
  pub sig : ℕ
  pub insuf : ℕ
  pub no_edges : ℕ
  pub discards : ℕ
  pub last_iteration_id : Option ℕ
  pub last_queue_id : Option ℕ
  pub last_tick_outcome : Option Outcome
  pub last_summary : Option TickSummary
  pub last_error : Option LastError
  -- whether the verdict line says that the waits were escalated
  pub escalated : Bool

abbrev pub empty_tally : Tally
empty_tally = record {
  iters = 0;
  sig = 0;
  insuf = 0;
  no_edges = 0;
  discards = 0;
  last_iteration_id = none;
  last_queue_id = none;
  last_tick_outcome = none;
  last_summary = none;
  last_error = none;
  escalated = false;
}

-- `_CONFIG_FAIL_ERROR_CODES`
unfoldable pub is_config_fail : String → Bool
is_config_fail code =
    str_eq code "account_strategy_missing"
    || str_eq code "python_interpreter_missing"
    || str_eq code "unknown_spec_name"

-- The exceptions that `except Exception` lets through.
unfoldable pub is_uncaught : String → Bool
is_uncaught name =
    str_eq name "CancelledError"
    || str_eq name "KeyboardInterrupt"
    || str_eq name "SystemExit"
    || str_eq name "GeneratorExit"

unfoldable pub failure_terminal : Failure → Terminal
unfolding is_config_fail is_uncaught
failure_terminal (domain code retryable tag) =
    if is_config_fail code then drained_config_fail else drained_infra_fail
failure_terminal (crash name) = if is_uncaught name then raised name else drained_infra_fail

unfoldable pub failure_error : Failure → LastError
failure_error (domain code retryable tag) = record { error_code = code; retryable = retryable }
failure_error (crash name) = record { error_code = "tick_uncaught_exception"; retryable = false }

unfoldable pub counted_stat : Option StatVerdict → Tally → Tally
counted_stat (some significant_edge) t = record t { sig = t.sig + 1 }
counted_stat (some insufficient_evidence) t = record t { insuf = t.insuf + 1 }
counted_stat (some no_edge) t = record t { no_edges = t.no_edges + 1 }
counted_stat stat t = t

unfoldable pub counted_verdict : Option Decision → Tally → Tally
counted_verdict (some discard) t = record t { discards = t.discards + 1 }
counted_verdict verdict t = t

unfoldable pub or_last : Option ℕ → Option ℕ → Option ℕ
or_last none last = last
or_last (some id) last = some id

-- The fallback of 30 seconds also stands for a wait of zero.
unfoldable pub resolve_wait_ms : List Action → ℕ
resolve_wait_ms [] = 30000
resolve_wait_ms (retry none ∷ others) = 30000
resolve_wait_ms (retry (some ms) ∷ others) = if ms == 0 then 30000 else ms
resolve_wait_ms (_ ∷ others) = resolve_wait_ms others

-- `bool(last_err.get("retryable", True))`, on the failing terminals only
unfoldable pub retryable_of : Option LastError → Bool
retryable_of none = true
retryable_of (some e) = e.retryable

unfoldable pub infra_fail_retryable : Terminal → Option LastError → Option Bool
unfolding retryable_of
infra_fail_retryable drained_infra_fail last = some (retryable_of last)
infra_fail_retryable drained_config_fail last = some (retryable_of last)
infra_fail_retryable t last = none

unfoldable pub next_actions_for_terminal : Terminal → List Action
next_actions_for_terminal drained_graduate = call "POST" "/reviews/auto-run-checklist" ∷ []
next_actions_for_terminal drained_empty = call "POST" "/queue" ∷ []
next_actions_for_terminal max_iters_reached = call "POST" "/tick/drain" ∷ []
next_actions_for_terminal max_wall_clock_reached = call "POST" "/tick/drain" ∷ []
next_actions_for_terminal drained_pivot = read_doc "researcher.pivot_archetype" ∷ []
next_actions_for_terminal drained_infra_fail = contact_human ∷ []
next_actions_for_terminal drained_config_fail = []
next_actions_for_terminal (raised name) = []

-- What one pass of the loop decides: to stop, or to go on with a number of waits in a row.
pub data Pass : Type 0 where
  stop : Terminal → Tally → Pass
  again : (waits : ℕ) → Tally → Pass

unfoldable pub waited : (deadline max_waits now wait_ms waits : ℕ) → Tally → Pass
waited deadline max_waits now wait_ms waits t =
    if leb max_waits (waits + 1)
    then stop drained_infra_fail (record t { escalated = true })
    else if leb deadline (now + wait_ms)
    then stop max_wall_clock_reached t
    else again (waits + 1) t

unfoldable pub after_next : (deadline max_waits now wait_ms waits : ℕ) → Next → Tally → Pass
unfolding waited
after_next deadline max_waits now ms waits graduate t = stop drained_graduate t
after_next deadline max_waits now ms waits pivot t = stop drained_pivot t
after_next deadline max_waits now ms waits queue_empty t = stop drained_empty t
after_next deadline max_waits now ms waits infra_fail t = stop drained_infra_fail t
after_next deadline max_waits now ms waits wait t = waited deadline max_waits now ms waits t
after_next deadline max_waits now ms waits go_on t = again 0 t

module _ (b : Builtins) where
  open b use {F}

  abbrev pub summary_of : TickResult F → TickSummary
  summary_of r = compute_tick_summary b r.outcome r.stat r.verdict r.next_actions r.pf r.n_trades

  unfoldable pub counted : Outcome → TickResult F → Tally → Tally
  unfolding counted_stat counted_verdict or_last
  counted iterated r t = counted_verdict r.verdict (
      counted_stat r.stat (record t {
        iters = t.iters + 1;
        last_iteration_id = or_last r.iteration_id t.last_iteration_id;
      }))
  counted o r t = t

  unfoldable pub noted : TickResult F → Tally → Tally
  unfolding counted or_last compute_tick_summary
  noted r t = counted r.outcome r (record t {
    last_tick_outcome = some r.outcome;
    last_summary = some (summary_of r);
    last_queue_id = or_last r.queue_id t.last_queue_id;
    escalated = false;
  })

  unfoldable pub pass_of : (deadline max_waits now waits : ℕ) → Result (TickResult F) → Tally → Pass
  unfolding after_next noted failure_terminal failure_error resolve_wait_ms compute_tick_summary
  pass_of deadline max_waits now waits (ok r) t =
      after_next deadline max_waits now (resolve_wait_ms r.next_actions) waits
        (summary_of r).next_action (noted r t)
  pass_of deadline max_waits now waits (err failure) t =
      stop (failure_terminal failure)
        (record t { last_error = some (failure_error failure); escalated = false })

  abbrev pub Drained : Type 0
  Drained = Terminal × Tally × World F

  unfoldable pub proceed : Pass → World F → (ℕ → Tally → Drained) → Drained
  proceed (stop terminal t) w k = (terminal, t, w)
  proceed (again waits t) w k = k waits t

  -- Tick i runs under the inputs `env i`; the monotonic clock is read before it and after it.
  module _ (env : ℕ → Env F) (before after : ℕ → ℕ) (deadline max_waits : ℕ) where
    unfoldable pub drain_from : (left i waits : ℕ) → Tally → World F → Drained
    unfolding pass_of proceed run_tick
    drain_from zero i waits t w = (max_iters_reached, t, w)
    drain_from (suc left) i waits t w =
        if leb deadline (before i)
        then (max_wall_clock_reached, t, w)
        else proceed (pass_of deadline max_waits (after i) waits (run_tick b (env i) w).0 t)
            (run_tick b (env i) w).1
            (λ waits' t'. drain_from left (suc i) waits' t' (run_tick b (env i) w).1)

  -- The deadline is the clock at the start and the budget.
  unfoldable pub drain_ticks :
      (env : ℕ → Env F) (before after : ℕ → ℕ) (max_iters max_wall_clock_s max_waits started : ℕ)
      → World F
      → Drained
  unfolding drain_from
  drain_ticks env before after max_iters max_wall_clock_s max_waits started w =
      drain_from env before after (started + max_wall_clock_s * 1000) max_waits max_iters 0 0
        empty_tally w
