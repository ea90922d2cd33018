-- ===== src/Tick/Frame.antt =====
-- Predicates on the world, over the steps that write only the queue and the papers, and what other
-- sessions do meanwhile.
use research_orchestrator.Prelude.{
  ℕ, ◌+◌, String, Bool, true, false, Option, List, ◌==◌, Bool-cases, inl, inr, leb,
}
use research_orchestrator.Builtins.{Builtins}
use research_orchestrator.Verdict.{
  StatVerdict, significant_edge, insufficient_evidence, no_edge, not_tested, other_stat, Decision,
  pass, discard, iterate, other_decision,
}
use research_orchestrator.Queue.{Row, Claim}
use research_orchestrator.Tick.{
  World, Coroutine, Result, ok, err, after, Env, Stage, checkpoint, update_queue, Action,
  after_terminal, after_continue, try_generate_paper, complete_as, park_for_walk_forward,
  continue_sweep, complete_or_continue, below_economic_gate, on_significant, on_insufficient,
  on_other, on_no_edge, decide_next_state, Logged, RunStatus, finish_iteration, check_attached,
  attach_fenced, conclude, fail_run, hand_back, deciding, attaching,
}

module _ (b : Builtins) (e : Env (b.F)) (c : Claim) (P : World (b.F) → Type 0)
    (on_queue : (w : World (b.F)) (t : List Row) → P w → P (record w { queue = t }))
    (on_papers : (w : World (b.F)) (p : List ℕ) → P w → P (record w { papers = p }))
    (on_meanwhile : (s : Stage) (w : World (b.F)) → P w → P (checkpoint e s w).1) where
  open b use {F}

  pub after-keeps :
      {A B : Type 0} (r : Result A × World F) (f : A → Coroutine F B)
      → P r.1
      → ((a : A) (w : World F) → P w → P (f a w).1)
      → P (after r.0 f r.1).1
  after-keeps (ok a, w) f h k = k a w h
  after-keeps (err failure, w) f h k = h

  after_terminal-keeps :
      (q : ℕ) (actions : List Action) (n : ℕ) (w : World F)
      → P w
      → P (after_terminal b q actions n w).1
  unfolding after_terminal try_generate_paper
  after_terminal-keeps q actions n w h = elim (Bool-cases (n == 0)) [
    | inl z ↦ rw z h
    | inr z ↦ rw z (on_papers w _ h)
  ]

  after_continue-keeps : (q n : ℕ) (w : World F) → P w → P (after_continue b q n w).1
  unfolding after_continue
  after_continue-keeps q n w h = elim (Bool-cases (n == 0)) [ inl z ↦ rw z h | inr z ↦ rw z h ]

  complete_as-keeps :
      (final note : String) (actions : List Action) (w : World F)
      → P w
      → P (complete_as b e c final note actions w).1
  unfolding complete_as update_queue
  complete_as-keeps final note actions w h = after_terminal-keeps _ actions _ _ (on_queue w _ h)

  park-keeps :
      (note : String) (actions : List Action) (w : World F)
      → P w
      → P (park_for_walk_forward b e c note actions w).1
  unfolding park_for_walk_forward update_queue
  park-keeps note actions w h = after_terminal-keeps _ actions _ _ (on_queue w _ h)

  continue_sweep-keeps : (note : String) (w : World F) → P w → P (continue_sweep b e c note w).1
  unfolding continue_sweep update_queue
  continue_sweep-keeps note w h = after_continue-keeps _ _ _ (on_queue w _ h)

  complete_or_continue-keeps :
      (final spent_note : String) (actions : List Action) (note : String) (w : World F)
      → P w
      → P (complete_or_continue b e c final spent_note actions note w).1
  unfolding complete_or_continue
  complete_or_continue-keeps final spent_note actions note w h =
      elim (Bool-cases (leb c.iter_budget (c.prior_iter + 1))) [
        | inl s ↦ rw s (complete_as-keeps final spent_note actions w h)
        | inr s ↦ rw s (continue_sweep-keeps note w h)
      ]

  below-keeps :
      (dec : Decision) (track : Option String) (dsr : Option F) (w : World F)
      → P w
      → P (below_economic_gate b e c dec track dsr w).1
  unfolding below_economic_gate
  below-keeps dec track dsr w h = complete_or_continue-keeps _ _ _ _ w h

  on_significant-keeps :
      (dec : Decision) (track : Option String) (dsr : Option F) (w : World F)
      → P w
      → P (on_significant b e c dec track dsr w).1
  unfolding on_significant
  on_significant-keeps pass track dsr w h = park-keeps _ _ w h
  on_significant-keeps discard track dsr w h = below-keeps discard track dsr w h
  on_significant-keeps iterate track dsr w h = below-keeps iterate track dsr w h
  on_significant-keeps (other_decision s) track dsr w h =
      below-keeps (other_decision s) track dsr w h

  on_insufficient-keeps : (w : World F) → P w → P (on_insufficient b e c w).1
  unfolding on_insufficient
  on_insufficient-keeps w h = complete_or_continue-keeps _ _ _ _ w h

  on_other-keeps : (stat : StatVerdict) (w : World F) → P w → P (on_other b e c stat w).1
  unfolding on_other
  on_other-keeps stat w h = complete_or_continue-keeps _ _ _ _ w h

  on_no_edge-keeps : (early : Bool) (w : World F) → P w → P (on_no_edge b e c early w).1
  unfolding on_no_edge
  on_no_edge-keeps true w h = complete_as-keeps _ _ _ w h
  on_no_edge-keeps false w h = on_other-keeps no_edge w h

  pub decide_next_state-keeps :
      (stat : StatVerdict) (dec : Decision) (dsr : Option F) (w : World F)
      → P w
      → P (decide_next_state b e c stat dec dsr w).1
  unfolding decide_next_state
  decide_next_state-keeps no_edge dec dsr w h = on_no_edge-keeps _ w h
  decide_next_state-keeps significant_edge dec dsr w h = on_significant-keeps dec _ dsr w h
  decide_next_state-keeps insufficient_evidence dec dsr w h = on_insufficient-keeps w h
  decide_next_state-keeps not_tested dec dsr w h = on_insufficient-keeps w h
  decide_next_state-keeps (other_stat s) dec dsr w h = on_other-keeps (other_stat s) w h

  finish_iteration-keeps :
      (run : ℕ) (l : Logged F) (w : World F) → P w → P (finish_iteration b e c run l w).1
  unfolding finish_iteration
  finish_iteration-keeps run l w h =
      after-keeps (checkpoint e deciding w) _ (on_meanwhile deciding w h) λ u w₁ h₁.
        after-keeps (decide_next_state b e c l.stat l.verdict l.dsr w₁) _
          (decide_next_state-keeps l.stat l.verdict l.dsr w₁ h₁) (λ actions w₂ h₂. h₂)

  check_attached-keeps : (n : ℕ) (w : World F) → P w → P (check_attached b e c n w).1
  unfolding check_attached
  check_attached-keeps n w h = elim (Bool-cases (n == 0)) [ inl z ↦ rw z h | inr z ↦ rw z h ]

  attach_fenced-keeps :
      (iteration run : ℕ) (w : World F) → P w → P (attach_fenced b e c iteration run w).1
  unfolding attach_fenced update_queue
  attach_fenced-keeps iteration run w h =
      after-keeps (checkpoint e attaching w) _ (on_meanwhile attaching w h)
        λ u w₁ h₁. check_attached-keeps _ _ (on_queue w₁ _ h₁)

  pub conclude-keeps : (run : ℕ) (l : Logged F) (w : World F) → P w → P (conclude b e c run l w).1
  unfolding conclude
  conclude-keeps run l w h =
      after-keeps (attach_fenced b e c l.iteration_id run w) _
        (attach_fenced-keeps l.iteration_id run w h) (λ u w₁ h₁. finish_iteration-keeps run l w₁ h₁)

  pub fail_run-keeps : (run : ℕ) (s : RunStatus) (w : World F) → P w → P (fail_run b e c run s w).1
  unfolding fail_run update_queue
  fail_run-keeps run s w h = on_queue w _ h

  pub hand_back-keeps :
      (run : ℕ) (s : RunStatus) (w : World F) → P w → P (hand_back b e c run s w).1
  unfolding hand_back update_queue
  hand_back-keeps run s w h = on_queue w _ h
