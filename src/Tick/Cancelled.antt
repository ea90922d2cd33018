-- ===== src/Tick/Cancelled.antt =====
-- `_decide_next_state` on a row that left RUNNING while the tick was in flight.
use research_orchestrator.Prelude.{
  ℕ, ◌+◌, String, ◌≡◌, refl, Bool, true, false, Option, some, List, [], ◌∷◌, arith, leb, Bool-cases,
  inl, inr,
}
use research_orchestrator.Builtins.{Builtins}
use research_orchestrator.Verdict.{
  StatVerdict, significant_edge, insufficient_evidence, no_edge, not_tested, other_stat, Decision,
  pass, discard, iterate, other_decision,
}
use research_orchestrator.Queue.{
  Row, running, Claim, update_where, selects, complete_queue, park_exhausted, reset_to_pending,
}
use research_orchestrator.Tick.{
  World, Result, ok, Env, update_queue, Action, after_terminal, after_continue, transition_lost,
  complete_as, park_for_walk_forward, continue_sweep, complete_or_continue, below_economic_gate,
  on_significant, on_insufficient, on_other, on_no_edge, decide_next_state,
}
use research_orchestrator.Tick.Settles.{is_settled}

-- Where no row of that id is RUNNING, the guarded UPDATE changes nothing.
pub settled_unaffected :
    (q : ℕ) (f : Row → Row) (t : List Row)
    → is_settled q t ≡ true
    → update_where (selects q (some running)) f t ≡ (t, 0)
unfolding update_where selects
settled_unaffected q f [] h = refl
settled_unaffected q f (r ∷ rs) h = ground (arith, settled_unaffected q f rs)

module _ (b : Builtins) (e : Env (b.F)) (c : Claim) where
  open b use {F}

  abbrev q : ℕ
  q = c.queue_id

  abbrev spent : Bool
  spent = leb c.iter_budget (c.prior_iter + 1)

  -- The row has left RUNNING: what each step then does.
  module _ (w : World F) (gone : is_settled q w.queue ≡ true) where
    abbrev Lost : Result (List Action) × World F → Type 0
    Lost m = m ≡ (ok (transition_lost b q), w)

    complete_as-Lost :
        (final note : String) (actions : List Action)
        → Lost (complete_as b e c final note actions w)
    unfolding complete_as update_queue complete_queue after_terminal
    complete_as-Lost final note actions = rw (settled_unaffected q _ w.queue gone) refl

    park-Lost :
        (note : String) (actions : List Action) → Lost (park_for_walk_forward b e c note actions w)
    unfolding park_for_walk_forward update_queue park_exhausted after_terminal
    park-Lost note actions = rw (settled_unaffected q _ w.queue gone) refl

    continue_sweep-Lost : (note : String) → Lost (continue_sweep b e c note w)
    unfolding continue_sweep update_queue reset_to_pending after_continue
    continue_sweep-Lost note = rw (settled_unaffected q _ w.queue gone) refl

    complete_or_continue-Lost :
        (final spent_note : String) (actions : List Action) (note : String)
        → Lost (complete_or_continue b e c final spent_note actions note w)
    unfolding complete_or_continue
    complete_or_continue-Lost final spent_note actions note = elim (Bool-cases spent) [
      | inl s ↦ rw s (complete_as-Lost final spent_note actions)
      | inr s ↦ rw s (continue_sweep-Lost note)
    ]

    on_no_edge-Lost : (early : Bool) → Lost (on_no_edge b e c early w)
    unfolding on_no_edge on_other
    on_no_edge-Lost true = complete_as-Lost _ _ _
    on_no_edge-Lost false = complete_or_continue-Lost _ _ _ _

    -- A row that is no longer RUNNING (an operator cancelled it while the tick was in flight) stays
    -- as it is, whatever the verdicts: nothing is written, no paper is generated, and the one next
    -- action is to look at the row.
    pub decide_next_state-Lost :
        (stat : StatVerdict) (dec : Decision) (dsr : Option F)
        → decide_next_state b e c stat dec dsr w ≡ (ok (transition_lost b q), w)
    unfolding decide_next_state on_significant below_economic_gate on_insufficient on_other
    decide_next_state-Lost no_edge dec dsr = on_no_edge-Lost _
    decide_next_state-Lost significant_edge pass dsr = park-Lost _ _
    decide_next_state-Lost significant_edge discard dsr = complete_or_continue-Lost _ _ _ _
    decide_next_state-Lost significant_edge iterate dsr = complete_or_continue-Lost _ _ _ _
    decide_next_state-Lost significant_edge (other_decision s) dsr =
        complete_or_continue-Lost _ _ _ _
    decide_next_state-Lost insufficient_evidence dec dsr = complete_or_continue-Lost _ _ _ _
    decide_next_state-Lost not_tested dec dsr = complete_or_continue-Lost _ _ _ _
    decide_next_state-Lost (other_stat s) dec dsr = complete_or_continue-Lost _ _ _ _
