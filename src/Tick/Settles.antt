-- ===== src/Tick/Settles.antt =====
-- How a tick leaves the row that it claimed.
use research_orchestrator.Prelude.{
  ℕ, ◌+◌, String, str_eq, ◌≡◌, refl, Bool, true, false, not, ◌&&◌, ◌||◌, Option, none, some, List,
  [], ◌∷◌, arith, leb, ◌==◌, all, Bool-cases, inl, inr,
}
use research_orchestrator.Builtins.{Builtins}
use research_orchestrator.Verdict.{
  StatVerdict, significant_edge, insufficient_evidence, no_edge, not_tested, other_stat, Decision,
  pass, discard, iterate, other_decision,
}
use research_orchestrator.Queue.{
  Row, running, status_eq, Claim, update_where, park_exhausted, complete_queue, reset_to_pending,
  selects,
}
use research_orchestrator.Tick.{
  World, Coroutine, Result, ok, err, Failure, domain, crash, after, Env, checkpoint, alive,
  update_queue, Action, after_terminal, after_continue, complete_as, park_for_walk_forward,
  continue_sweep, complete_or_continue, below_economic_gate, on_significant, on_insufficient,
  on_other, on_no_edge, decide_next_state, Stage,
}

-- No row with the id is RUNNING.
abbrev pub is_settled : ℕ → List Row → Bool
is_settled q t = all (λ r. not (r.queue_id == q && status_eq r.status running)) t

-- A guarded UPDATE by key that writes another status leaves no RUNNING row with that id.
pub update_where-is_settled :
    (q : ℕ) (f : Row → Row) (t : List Row)
    → ((r : Row) → status_eq (f r).status running ≡ false)
    → is_settled q (update_where (selects q (some running)) f t).0 ≡ true
unfolding update_where selects
update_where-is_settled q f [] h = refl
update_where-is_settled q f (r ∷ rs) h = ground (arith, h r, update_where-is_settled q f rs h)

-- A failure whose path has not written the row: the handler of `run_tick` will.
abbrev pub needs_rollback : Failure → Bool
needs_rollback (domain code retryable terminal) = not terminal
needs_rollback (crash name) = true

-- The fence of `attach_iteration` failed: another tick owns the row by now.
abbrev pub is_reclaimed : Failure → Bool
is_reclaimed (domain code retryable terminal) = terminal && str_eq code "queue_row_reclaimed"
is_reclaimed (crash name) = false

-- What a step promises where it ends, if it returns (Q) and if it raises.
module _ {F : Type 0} (q : ℕ) where
  abbrev pub Raised : Failure → World F → Type 0
  Raised failure w = (needs_rollback failure || is_reclaimed failure || is_settled q w.queue) ≡ true

  -- The step may go on, or has raised in order.
  abbrev pub IsOpen : {A : Type 0} → Result A × World F → Type 0
  IsOpen (ok a, w) = Unit
  IsOpen (err failure, w) = Raised failure w

  -- The step is the last one.
  abbrev pub IsClosed : {A : Type 0} → Result A × World F → Type 0
  IsClosed (ok a, w) = is_settled q w.queue ≡ true
  IsClosed (err failure, w) = Raised failure w

  pub after-IsOpen :
      {A B : Type 0} (r : Result A × World F) (f : A → Coroutine F B)
      → IsOpen r
      → ((a : A) (w : World F) → IsOpen (f a w))
      → IsOpen (after r.0 f r.1)
  after-IsOpen (ok a, w) f h k = k a w
  after-IsOpen (err failure, w) f h k = h

  pub after-IsClosed :
      {A B : Type 0} (r : Result A × World F) (f : A → Coroutine F B)
      → IsOpen r
      → ((a : A) (w : World F) → IsClosed (f a w))
      → IsClosed (after r.0 f r.1)
  after-IsClosed (ok a, w) f h k = k a w
  after-IsClosed (err failure, w) f h k = h

  -- A step that keeps the queue as it is.
  alive-IsOpen : (o : Option String) (w : World F) → IsOpen (alive o, w)
  unfolding alive
  alive-IsOpen none w = tt
  alive-IsOpen (some name) w = refl

  pub checkpoint-IsOpen : (e : Env F) (s : Stage) (w : World F) → IsOpen (checkpoint e s w)
  unfolding checkpoint
  checkpoint-IsOpen e s w = alive-IsOpen (e.dies s) _

module _ (b : Builtins) (e : Env (b.F)) (c : Claim) where
  open b use {F}

  abbrev q : ℕ
  q = c.queue_id

  after_terminal-settled :
      (actions : List Action) (n : ℕ) (w : World F)
      → is_settled q w.queue ≡ true
      → IsClosed q (after_terminal b q actions n w)
  unfolding after_terminal
  after_terminal-settled actions n w h = elim (Bool-cases (n == 0)) [
    | inl z ↦ rw z h
    | inr z ↦ rw z h
  ]

  complete_as-IsClosed :
      (final note : String) (actions : List Action) (w : World F)
      → IsClosed q (complete_as b e c final note actions w)
  unfolding complete_as update_queue complete_queue
  complete_as-IsClosed final note actions w =
      after_terminal-settled actions _ _ (update_where-is_settled q _ w.queue (λ r. refl))

  park-IsClosed :
      (note : String) (actions : List Action) (w : World F)
      → IsClosed q (park_for_walk_forward b e c note actions w)
  unfolding park_for_walk_forward update_queue park_exhausted
  park-IsClosed note actions w =
      after_terminal-settled actions _ _ (update_where-is_settled q _ w.queue (λ r. refl))

  after_continue-settled :
      (n : ℕ) (w : World F) → is_settled q w.queue ≡ true → IsClosed q (after_continue b q n w)
  unfolding after_continue
  after_continue-settled n w h = elim (Bool-cases (n == 0)) [ inl z ↦ rw z h | inr z ↦ rw z h ]

  continue_sweep-IsClosed : (note : String) (w : World F) → IsClosed q (continue_sweep b e c note w)
  unfolding continue_sweep update_queue reset_to_pending
  continue_sweep-IsClosed note w =
      after_continue-settled _ _ (update_where-is_settled q _ w.queue (λ r. refl))

  complete_or_continue-IsClosed :
      (final spent_note : String) (actions : List Action) (note : String) (w : World F)
      → IsClosed q (complete_or_continue b e c final spent_note actions note w)
  unfolding complete_or_continue
  complete_or_continue-IsClosed final spent_note actions note w =
      elim (Bool-cases (leb c.iter_budget (c.prior_iter + 1))) [
        | inl s ↦ rw s (complete_as-IsClosed final spent_note actions w)
        | inr s ↦ rw s (continue_sweep-IsClosed note w)
      ]

  on_other-IsClosed : (stat : StatVerdict) (w : World F) → IsClosed q (on_other b e c stat w)
  unfolding on_other
  on_other-IsClosed stat w = complete_or_continue-IsClosed _ _ _ _ w

  below-IsClosed :
      (dec : Decision) (track : Option String) (dsr : Option F) (w : World F)
      → IsClosed q (below_economic_gate b e c dec track dsr w)
  unfolding below_economic_gate
  below-IsClosed dec track dsr w = complete_or_continue-IsClosed _ _ _ _ w

  on_significant-IsClosed :
      (dec : Decision) (track : Option String) (dsr : Option F) (w : World F)
      → IsClosed q (on_significant b e c dec track dsr w)
  unfolding on_significant
  on_significant-IsClosed pass track dsr w = park-IsClosed _ _ w
  on_significant-IsClosed discard track dsr w = below-IsClosed discard track dsr w
  on_significant-IsClosed iterate track dsr w = below-IsClosed iterate track dsr w
  on_significant-IsClosed (other_decision s) track dsr w =
      below-IsClosed (other_decision s) track dsr w

  on_insufficient-IsClosed : (w : World F) → IsClosed q (on_insufficient b e c w)
  unfolding on_insufficient
  on_insufficient-IsClosed w = complete_or_continue-IsClosed _ _ _ _ w

  on_no_edge-IsClosed : (early : Bool) (w : World F) → IsClosed q (on_no_edge b e c early w)
  unfolding on_no_edge
  on_no_edge-IsClosed true w = complete_as-IsClosed _ _ _ w
  on_no_edge-IsClosed false w = on_other-IsClosed no_edge w

  pub decide_next_state-IsClosed :
      (stat : StatVerdict) (dec : Decision) (dsr : Option F) (w : World F)
      → IsClosed q (decide_next_state b e c stat dec dsr w)
  unfolding decide_next_state
  decide_next_state-IsClosed no_edge dec dsr w = on_no_edge-IsClosed _ w
  decide_next_state-IsClosed significant_edge dec dsr w = on_significant-IsClosed dec _ dsr w
  decide_next_state-IsClosed insufficient_evidence dec dsr w = on_insufficient-IsClosed w
  decide_next_state-IsClosed not_tested dec dsr w = on_insufficient-IsClosed w
  decide_next_state-IsClosed (other_stat s) dec dsr w = on_other-IsClosed (other_stat s) w
