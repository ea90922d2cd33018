-- ===== src/Tick/Routing.antt =====
-- Where `_decide_next_state` routes a row, as one table.
use research_orchestrator.Prelude.{
  ℕ, ◌+◌, String, ◌≡◌, refl, ap, ◌∙◌, Bool, true, false, Option, none, some, List, arith, leb, ◌==◌,
  Bool-cases, inl, inr, ==_refl,
}
use research_orchestrator.Builtins.{Builtins}
use research_orchestrator.Verdict.{
  StatVerdict, significant_edge, insufficient_evidence, no_edge, not_tested, other_stat, Decision,
  pass, discard, iterate, other_decision,
}
use research_orchestrator.Queue.{
  Row, Status, pending, running, parked, completed, Claim, update_where, selects, find,
  complete_queue, park_exhausted, reset_to_pending,
}
use research_orchestrator.Queue.View.{find-update_where, find_id}
use research_orchestrator.Tick.{
  World, Env, update_queue, Action, after_terminal, after_continue, try_generate_paper, complete_as,
  park_for_walk_forward, continue_sweep, complete_or_continue, below_economic_gate, on_significant,
  on_insufficient, on_other, on_no_edge, final_of, decide_next_state,
}

-- A status, and the final verdict where the row completes.
abbrev pub Route : Type 0
Route = Status × Option String

abbrev pub when_spent : Bool → String → Route
when_spent true final = (completed, some final)
when_spent false final = (pending, none)

-- The table: a discarded axis completes at once, a passing cell waits for its walk-forward, and all
-- else goes on until the budget is spent.
abbrev pub route : StatVerdict → Decision → (early_stop spent : Bool) → Route
route no_edge dec true spent = (completed, some "DISCARD")
route no_edge dec false spent = when_spent spent "DISCARD"
route significant_edge pass early spent = (parked, none)
route stat dec early spent = when_spent spent "INSUFFICIENT_EVIDENCE"

abbrev pub Routed : Route → Row → Type 0
Routed (s, none) r = r.status ≡ s
Routed (s, some final) r = (r.status ≡ s) × (r.final_verdict ≡ some final)

-- A row that stands in the table under its id, and as the route says.
abbrev pub IsRouted : ℕ → Route → List Row → Type 0
IsRouted q d t = (r : Row) × (find q t ≡ some r) × Routed d r

pub find_updated :
    (q : ℕ) (f : Row → Row) (t : List Row) (r : Row)
    → ((r : Row) → (f r).queue_id ≡ r.queue_id)
    → find q t ≡ some r
    → r.status ≡ running
    → find q (update_where (selects q (some running)) f t).0 ≡ some (f r)
unfolding selects
find_updated q f t r keeps h s =
    find-update_where (selects q (some running)) f keeps q t
    ∙ ground (arith, h, s, find_id q t r h, ==_refl q)

module _ (b : Builtins) (e : Env (b.F)) (c : Claim) where
  open b use {F}

  abbrev q : ℕ
  q = c.queue_id

  abbrev spent : Bool
  spent = leb c.iter_budget (c.prior_iter + 1)

  after_terminal-queue :
      (actions : List Action) (n : ℕ) (w : World F)
      → (after_terminal b q actions n w).1.queue ≡ w.queue
  unfolding after_terminal try_generate_paper
  after_terminal-queue actions n w = elim (Bool-cases (n == 0)) [
    | inl z ↦ rw z refl
    | inr z ↦ rw z refl
  ]

  after_continue-queue : (n : ℕ) (w : World F) → (after_continue b q n w).1.queue ≡ w.queue
  unfolding after_continue
  after_continue-queue n w = elim (Bool-cases (n == 0)) [ inl z ↦ rw z refl | inr z ↦ rw z refl ]

  -- A row that waits to be routed, and where it stands after a step.
  module _ (w : World F) (r : Row) (here : find q w.queue ≡ some r)
      (busy : r.status ≡ running) where
    complete_as-IsRouted :
        (final note : String) (actions : List Action)
        → IsRouted q (completed, some final) (complete_as b e c final note actions w).1.queue
    unfolding complete_as update_queue complete_queue
    complete_as-IsRouted final note actions = (
      _,
      ap (find q) (after_terminal-queue actions _ _)
          ∙ find_updated q _ w.queue r (λ r. refl) here busy,
      (refl, refl),
    )

    park-IsRouted :
        (note : String) (actions : List Action)
        → IsRouted q (parked, none) (park_for_walk_forward b e c note actions w).1.queue
    unfolding park_for_walk_forward update_queue park_exhausted
    park-IsRouted note actions = (
      _,
      ap (find q) (after_terminal-queue actions _ _)
          ∙ find_updated q _ w.queue r (λ r. refl) here busy,
      refl,
    )

    continue_sweep-IsRouted :
        (note : String) → IsRouted q (pending, none) (continue_sweep b e c note w).1.queue
    unfolding continue_sweep update_queue reset_to_pending
    continue_sweep-IsRouted note = (
      _,
      ap (find q) (after_continue-queue _ _) ∙ find_updated q _ w.queue r (λ r. refl) here busy,
      refl,
    )

    complete_or_continue-IsRouted :
        (final spent_note : String) (actions : List Action) (note : String)
        → IsRouted q
            (when_spent spent final)
            (complete_or_continue b e c final spent_note actions note w).1.queue
    unfolding complete_or_continue
    complete_or_continue-IsRouted final spent_note actions note = elim (Bool-cases spent) [
      | inl s ↦ rw s (complete_as-IsRouted final spent_note actions)
      | inr s ↦ rw s (continue_sweep-IsRouted note)
    ]

    on_no_edge-IsRouted :
        (dec : Decision) (early : Bool)
        → IsRouted q (route no_edge dec early spent) (on_no_edge b e c early w).1.queue
    unfolding on_no_edge on_other final_of
    on_no_edge-IsRouted dec true = complete_as-IsRouted _ _ _
    on_no_edge-IsRouted dec false = complete_or_continue-IsRouted _ _ _ _

    -- A RUNNING row ends where the table routes it, by the two verdicts, `early_stop` and whether
    -- the budget is spent, with the table's final verdict where it completes.
    pub decide_next_state-IsRouted :
        (stat : StatVerdict) (dec : Decision) (dsr : Option F)
        → IsRouted q
            (route stat dec c.early_stop_on_no_edge spent)
            (decide_next_state b e c stat dec dsr w).1.queue
    unfolding decide_next_state on_significant below_economic_gate on_insufficient on_other final_of
    decide_next_state-IsRouted no_edge dec dsr = on_no_edge-IsRouted dec _
    decide_next_state-IsRouted significant_edge pass dsr = park-IsRouted _ _
    decide_next_state-IsRouted significant_edge discard dsr = complete_or_continue-IsRouted _ _ _ _
    decide_next_state-IsRouted significant_edge iterate dsr = complete_or_continue-IsRouted _ _ _ _
    decide_next_state-IsRouted significant_edge (other_decision s) dsr =
        complete_or_continue-IsRouted _ _ _ _
    decide_next_state-IsRouted insufficient_evidence dec dsr = complete_or_continue-IsRouted _ _ _ _
    decide_next_state-IsRouted not_tested dec dsr = complete_or_continue-IsRouted _ _ _ _
    decide_next_state-IsRouted (other_stat s) dec dsr = complete_or_continue-IsRouted _ _ _ _
