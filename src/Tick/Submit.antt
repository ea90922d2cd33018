-- ===== src/Tick/Submit.antt =====
-- Steps 2 to 4 of services/tick.py: the sweep cell, the account, the audit row and the submission.
use research_orchestrator.Prelude.{
  ℕ, ◌+◌, String, true, false, Option, none, some, List, [], ◌∷◌, leb, ◌==◌, if◌then◌else◌,
}
use Prim.Native.String.{◌++◌}
use research_orchestrator.Prelude.Dict.{Dict}
use research_orchestrator.Builtins.{Builtins}
use research_orchestrator.Sweep.{
  Value, SweepConfig, Param, derive_combo, total_combos, is_tpe, tpe_trial_budget,
  split_ml_overrides, build_ml_override_maps,
}
use research_orchestrator.Queue.{running, Claim, fail_queue, park_exhausted, set_active_run}
use research_orchestrator.Tick.Tables.{World, Account, Audit, Payload, count_data_universe_trials}
use research_orchestrator.Tick.Monad.{
  Coroutine, Result, ok, err, domain, crash, pure, raise, gets, modify, lift, ◌>>=◌, ◌>>◌,
}
use research_orchestrator.Tick.Context.{
  Env, Reply, accepted, rejected, lost, planning, auditing, submitting, dispatched, at, checkpoint,
  update_queue,
}
use research_orchestrator.Tick.Request.{
  audit_symbol, external_declared_trials, resolve_account_strategy, pinned, build_submit_payload,
  spec_overrides,
}

-- What `_derive_and_submit` returns: a submitted run, or the note of an exhausted sweep.
pub data Submission : Type 0 where
  exhausted : (note : String) → Submission
  submitted_as : (combo : Dict Value) (audit_id cumulative_trials backtest_run_id : ℕ) → Submission

module _ (b : Builtins) (e : Env (b.F)) (c : Claim) where
  open b use {F, show_int, str_value, parse_float, upper}

  abbrev config : SweepConfig
  config = c.sweep_config

  unfoldable pub asked : Option (Dict Value) → Result (Option (Dict Value))
  asked none = err (domain "tpe_sampler_failed" false true)
  asked (some combo) = ok (some combo)

  unfoldable pub tpe_point : List Param → Result (Option (Dict Value))
  unfolding asked
  tpe_point [] = ok (if c.prior_iter == 0 then some [] else none)
  tpe_point (p ∷ ps) = asked (e.ask config c.prior_iter)

  -- The budget and the empty space come first.
  unfoldable pub next_combo_tpe : Result (Option (Dict Value))
  unfolding tpe_point
  next_combo_tpe =
      if leb (tpe_trial_budget config) c.prior_iter then ok none else tpe_point config.params

  -- Where the sampler raises, the row is failed first.
  unfoldable pub fail_row : {A : Type 0} → (code note : String) → Coroutine F A
  unfolding update_queue fail_queue
  fail_row code note =
      update_queue (fail_queue (e.clock planning) c.queue_id note (some running))
      >> raise (domain code false true)

  unfoldable pub sampled : Result (Option (Dict Value)) → Coroutine F (Option (Dict Value))
  unfolding fail_row
  sampled (ok combo) = pure combo
  sampled (err failure) =
      fail_row "tpe_sampler_failed"
        ("[" ++ at e planning ++ "] TPE sampler failed at iter=" ++ show_int c.prior_iter ++ ".")

  unfoldable pub next_combo : Coroutine F (Option (Dict Value))
  unfolding sampled next_combo_tpe
  next_combo =
      if is_tpe config
      then sampled next_combo_tpe
      else pure (derive_combo config.params c.prior_iter)

  unfoldable pub exhausted_note : String
  exhausted_note =
      if is_tpe config
      then "TPE budget exhausted at iter="
        ++ show_int c.prior_iter
        ++ "; n_trials="
        ++ show_int (tpe_trial_budget config)
        ++ "."
      else "Sweep exhausted at iter="
        ++ show_int c.prior_iter
        ++ "; total combos="
        ++ show_int (total_combos config.params)
        ++ "."

  unfoldable pub park_sweep : Coroutine F Submission
  unfolding update_queue park_exhausted exhausted_note
  park_sweep =
      let note = "[" ++ at e planning ++ "] " ++ exhausted_note in
      update_queue (park_exhausted (e.clock planning) c.queue_id note (some running))
      >> pure (exhausted note)

  abbrev pub trials_now : World F → ℕ
  trials_now w =
      count_data_universe_trials c.instrument c.interval_name
        (external_declared_trials parse_float config) w.audits
      + 1

  unfoldable pub new_audit : Dict Value → Audit
  unfolding audit_symbol
  new_audit combo = record {
    audit_id = e.fresh_audit_id;
    queue_id = c.queue_id;
    strategy_code = c.strategy_code;
    symbol = audit_symbol config.universe c.instrument;
    interval_name = c.interval_name;
    params_snapshot = combo;
    iteration_id = none;
    statistical_verdict = none;
    decision_verdict = none;
    null_screen_draw = false;
    created_by = e.agent_name;
  }

  -- The audit row is written before the run is submitted.
  unfoldable pub write_audit : Dict Value → Coroutine F ℕ
  unfolding new_audit count_data_universe_trials external_declared_trials
  write_audit combo =
      modify (λ w. record w { audits = new_audit combo ∷ w.audits }) >> gets trials_now

  unfoldable pub payload_of : Account → Dict Value → Payload
  unfolding build_submit_payload spec_overrides pinned
  payload_of account combo =
      let parts = split_ml_overrides combo in
      build_submit_payload account c.strategy_code c.instrument c.interval_name
        (spec_overrides (upper c.strategy_code) parts) (pinned config.allow_long account.allow_long)
        (pinned config.allow_short account.allow_short) config.start_time
        (build_ml_override_maps str_value c.strategy_code parts.1) config.universe

  -- The client's errors carry no tag.
  unfoldable pub replied : Reply → Result ℕ
  replied (accepted run) = ok run
  replied (rejected code retryable) = err (domain code retryable false)
  replied (lost class_name) = err (crash class_name)

  unfoldable pub submit_backtest : Payload → Coroutine F ℕ
  unfolding replied
  submit_backtest p =
      modify (λ w. record w { submitted = p ∷ w.submitted }) >> lift (replied (e.submit_backtest p))

  -- Steps 3.5 and 4. The run is put on the row at once, so that a later tick can resume it.
  unfoldable pub submit_combo : Account → Dict Value → Coroutine F Submission
  unfolding checkpoint write_audit payload_of submit_backtest update_queue set_active_run
  submit_combo account combo =
      checkpoint e auditing
      >> (write_audit combo >>= λ trials.
          checkpoint e submitting
          >> (submit_backtest (payload_of account combo) >>= λ run.
              checkpoint e dispatched
              >> (update_queue (set_active_run c.queue_id run)
                  >> pure (submitted_as combo e.fresh_audit_id trials run))))

  unfoldable pub with_account : Dict Value → Option Account → Coroutine F Submission
  unfolding fail_row submit_combo
  with_account combo none = fail_row "account_strategy_missing" (
      "["
      ++ at e planning
      ++ "] No account_strategy row for strategy_code="
      ++ c.strategy_code
      ++ " (is_deleted=false).")
  with_account combo (some account) = submit_combo account combo

  unfoldable pub with_combo : Option (Dict Value) → Coroutine F Submission
  unfolding park_sweep with_account
  with_combo none = park_sweep
  with_combo (some combo) =
      gets (λ w. resolve_account_strategy c.strategy_code e.research_account_id w.accounts)
      >>= with_account combo

  unfoldable pub derive_and_submit : Coroutine F Submission
  unfolding checkpoint next_combo with_combo
  derive_and_submit = checkpoint e planning >> (next_combo >>= with_combo)
