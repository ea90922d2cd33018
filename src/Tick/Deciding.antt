-- ===== src/Tick/Deciding.antt =====
-- Step 6 of services/tick.py: `_decide_next_state` and `_transition_lost`.
use research_orchestrator.Prelude.{
  ℕ, ◌+◌, String, str_eq, Bool, true, false, ◌&&◌, Option, none, some, List, [], ◌∷◌, leb, ◌==◌,
  if◌then◌else◌,
}
use Prim.Native.String.{◌++◌}
use research_orchestrator.Builtins.{Builtins}
use research_orchestrator.Verdict.{
  StatVerdict, significant_edge, insufficient_evidence, no_edge, not_tested, other_stat, Decision,
  pass, stat_text, decision_text,
}
use research_orchestrator.Analyze.{dsr_threshold}
use research_orchestrator.Queue.{running, Claim, complete_queue, park_exhausted, reset_to_pending}
use research_orchestrator.Tick.Summary.{Action, call, contact_human}
use research_orchestrator.Tick.Monad.{Coroutine, pure, modify, ◌>>=◌, ◌>>◌}
use research_orchestrator.Tick.Context.{Env, deciding, at, update_queue}

abbrev pub requeue_action : Action
requeue_action = call "POST" "/queue"

abbrev pub tick_action : Action
tick_action = call "POST" "/tick"

abbrev pub walk_forward_action : Action
walk_forward_action = call "POST" "/walk-forward"

abbrev pub anti_pattern_action : Action
anti_pattern_action = call "GET" "/journal?entry_type=ANTI_PATTERN"

module _ (b : Builtins) where
  open b use {F, le, show_int}

  -- The row left RUNNING while the tick was in flight: a hint to look at it, and no write.
  unfoldable pub transition_lost : (queue_id : ℕ) → List Action
  transition_lost q = call "GET" ("/queue/" ++ show_int q) ∷ []

  -- `_try_generate_paper`: it never raises.
  unfoldable pub try_generate_paper : (queue_id : ℕ) → Coroutine F (Unit {0})
  try_generate_paper q = modify (λ w. record w { papers = q ∷ w.papers })

  -- What follows a transition that affected a number of rows.
  unfoldable pub after_terminal : (queue_id : ℕ) → List Action → ℕ → Coroutine F (List Action)
  unfolding transition_lost try_generate_paper
  after_terminal q actions affected =
      if affected == 0 then pure (transition_lost q) else try_generate_paper q >> pure actions

  unfoldable pub after_continue : (queue_id : ℕ) → ℕ → Coroutine F (List Action)
  unfolding transition_lost
  after_continue q affected =
      if affected == 0 then pure (transition_lost q) else pure (tick_action ∷ [])

  module _ (e : Env F) (c : Claim) where
    abbrev new_iter : ℕ
    new_iter = c.prior_iter + 1

    abbrev iter_text : String
    iter_text = show_int (c.prior_iter + 1)

    abbrev stamp : String → String
    stamp s = "[" ++ at e deciding ++ "] " ++ s

    unfoldable pub complete_as :
        (final_verdict note : String) → List Action → Coroutine F (List Action)
    unfolding update_queue after_terminal complete_queue
    complete_as final note actions =
        update_queue (complete_queue (e.clock deciding) c.queue_id final none note (some running))
        >>= after_terminal c.queue_id actions

    unfoldable pub park_for_walk_forward : (note : String) → List Action → Coroutine F (List Action)
    unfolding update_queue after_terminal park_exhausted
    park_for_walk_forward note actions =
        update_queue (park_exhausted (e.clock deciding) c.queue_id note (some running))
        >>= after_terminal c.queue_id actions

    unfoldable pub continue_sweep : (note : String) → Coroutine F (List Action)
    unfolding update_queue after_continue reset_to_pending
    continue_sweep note =
        update_queue (reset_to_pending c.queue_id note (some running)) >>= after_continue c.queue_id

    abbrev budget_spent : Bool
    budget_spent = leb c.iter_budget (c.prior_iter + 1)

    -- The budget decides: the queue completes, or the sweep goes on.
    unfoldable pub complete_or_continue :
        (final_verdict spent_note : String)
        → List Action
        → (note : String) → Coroutine F (List Action)
    unfolding complete_as continue_sweep
    complete_or_continue final spent_note actions note =
        if budget_spent then complete_as final spent_note actions else continue_sweep note

    unfoldable pub is_trading : Option String → Bool
    is_trading none = true
    is_trading (some t) = str_eq t "trading"

    -- The managed-pool lane: a real edge below the economic bar, on the trading track only.
    unfoldable pub is_pool_candidate : (track : Option String) (dsr : Option F) → Bool
    unfolding is_trading
    is_pool_candidate track none = false
    is_pool_candidate track (some d) = is_trading track && le (dsr_threshold b) d

    unfoldable pub exhausted_actions : (track : Option String) (dsr : Option F) → List Action
    unfolding is_pool_candidate
    exhausted_actions track dsr =
        if is_pool_candidate track dsr
        then walk_forward_action ∷ requeue_action ∷ []
        else requeue_action ∷ []

    -- A significant edge that misses the economic gate.
    unfoldable pub below_economic_gate :
        Decision → (track : Option String) (dsr : Option F) → Coroutine F (List Action)
    unfolding complete_or_continue exhausted_actions
    below_economic_gate dec track dsr =
        complete_or_continue "INSUFFICIENT_EVIDENCE"
          (stamp (
            "iter "
            ++ iter_text
            ++ " SIGNIFICANT_EDGE but decision_verdict="
            ++ decision_text dec
            ++ " (V60 economic gate not met) and iter_budget exhausted. Completing as ITERATE_EXHAUSTED."))
          (exhausted_actions track dsr)
          (stamp (
            "iter "
            ++ iter_text
            ++ " SIGNIFICANT_EDGE but decision_verdict="
            ++ decision_text dec
            ++ " (V60 economic gate not met); continuing sweep."))

    unfoldable pub on_significant :
        Decision → (track : Option String) (dsr : Option F) → Coroutine F (List Action)
    unfolding park_for_walk_forward below_economic_gate
    on_significant pass track dsr =
        park_for_walk_forward
          (stamp (
            "iter " ++ iter_text
            ++ " SIGNIFICANT_EDGE + V60 PASS — needs walk-forward validation. POST /walk-forward to gate PASS."))
          (walk_forward_action ∷ [])
    on_significant dec track dsr = below_economic_gate dec track dsr

    unfoldable pub on_insufficient : Coroutine F (List Action)
    unfolding complete_or_continue
    on_insufficient =
        complete_or_continue "INSUFFICIENT_EVIDENCE"
          (stamp (
            "Parked at iter "
            ++ iter_text
            ++ ": still INSUFFICIENT_EVIDENCE after iter_budget="
            ++ show_int c.iter_budget
            ++ ". Human review."))
          (contact_human ∷ [])
          (stamp ("iter " ++ iter_text ++ " INSUFFICIENT_EVIDENCE; continuing."))

    unfoldable pub final_of : StatVerdict → String
    final_of no_edge = "DISCARD"
    final_of stat = "INSUFFICIENT_EVIDENCE"

    -- NO_EDGE without early stop, or a verdict that no branch names.
    unfoldable pub on_other : StatVerdict → Coroutine F (List Action)
    unfolding complete_or_continue final_of
    on_other stat =
        complete_or_continue (final_of stat)
          (stamp (
            "iter "
            ++ iter_text
            ++ " statistical_verdict="
            ++ stat_text stat
            ++ "; iter_budget="
            ++ show_int c.iter_budget
            ++ " exhausted. Completing as "
            ++ final_of stat
            ++ "."))
          (anti_pattern_action ∷ [])
          (stamp
            ("iter " ++ iter_text ++ " statistical_verdict=" ++ stat_text stat ++ "; continuing."))

    unfoldable pub on_no_edge : Bool → Coroutine F (List Action)
    unfolding complete_as on_other
    on_no_edge true =
        complete_as "DISCARD"
          (stamp ("Discarded at iter " ++ iter_text ++ ": stat verdict NO_EDGE + early_stop=true."))
          (anti_pattern_action ∷ [])
    on_no_edge false = on_other no_edge

    unfoldable pub decide_next_state :
        StatVerdict → Decision → (dsr : Option F) → Coroutine F (List Action)
    unfolding on_significant on_insufficient on_no_edge on_other
    decide_next_state no_edge dec dsr = on_no_edge c.early_stop_on_no_edge
    decide_next_state significant_edge dec dsr = on_significant dec c.sweep_config.track dsr
    decide_next_state insufficient_evidence dec dsr = on_insufficient
    decide_next_state not_tested dec dsr = on_insufficient
    decide_next_state (other_stat s) dec dsr = on_other (other_stat s)
