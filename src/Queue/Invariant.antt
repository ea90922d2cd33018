-- ===== src/Queue/Invariant.antt =====
-- The invariant of the queue table, and the statements of repo/queue_write.py over it.
use research_orchestrator.Prelude.{
  ℕ, String, ◌≡◌, refl, Bool, true, Option, none, some, List, [], ◌∷◌, ◌++◌, arith, ◌==◌,
  if◌then◌else◌, Bool-cases, Option-cases, inl, inr, All, is_some,
}
use research_orchestrator.Queue.{
  Row, NewRow, Status, running, parked, completed, failed, find, claim_next, claim_selected,
  update_where, insert_queue, recover_stuck, rollback_iter, park_exhausted, fail_queue,
  requeue_failed, set_active_run, complete_queue, update_regime_label, reset_to_pending,
  cancel_queue, attach_iteration,
}
use research_orchestrator.Queue.View.{IsKeyed, update_where-IsKeyed}

-- A RUNNING row has a start; a row at rest has an end; a row that completed or failed has no run
-- left to resume.
pub record IsSound (r : Row) : Type 0 where
  pub started : r.status ≡ running → is_some r.started_at ≡ true
  pub parked_at : r.status ≡ parked → is_some r.completed_at ≡ true
  pub completed_at : r.status ≡ completed → is_some r.completed_at ≡ true
  pub failed_at : r.status ≡ failed → is_some r.completed_at ≡ true
  pub completed_idle : r.status ≡ completed → r.active_backtest_run_id ≡ none
  pub failed_idle : r.status ≡ failed → r.active_backtest_run_id ≡ none

pub record IsValid (t : List Row) : Type 0 where
  pub keyed : IsKeyed t
  pub sound : All IsSound t

pub data Op : Type 0 where
  insert : (fresh now : ℕ) → NewRow → Option String → Op
  claim : (locked : ℕ → Bool) → Option String → (now : ℕ) → Op
  recover : (now max_age : ℕ) → String → Op
  rollback : (queue_id : ℕ) → String → Option Status → Op
  park : (now queue_id : ℕ) → String → Option Status → Op
  fail : (now queue_id : ℕ) → String → Option Status → Op
  requeue : (queue_id : ℕ) → String → Op
  set_run : (queue_id run : ℕ) → Op
  complete : (now queue_id : ℕ) → String → Option ℕ → String → Option Status → Op
  regime : (queue_id : ℕ) → Option String → Option String → Op
  reset : (queue_id : ℕ) → String → Option Status → Op
  cancel : (now queue_id : ℕ) → String → Op
  attach : (queue_id iteration run : ℕ) → Option ℕ → Op

-- An INSERT whose generated id is already taken violates the primary key and adds nothing.
unfoldable pub insert_keyed : (fresh now : ℕ) → NewRow → Option String → List Row → List Row
insert_keyed fresh now n track t =
    if is_some (find fresh t) then t else (insert_queue fresh now n track t).0

unfoldable pub apply : Op → List Row → List Row
unfolding insert_keyed
apply (insert fresh now n track) t = insert_keyed fresh now n track t
apply (claim locked track now) t = (claim_next locked track now t).0
apply (recover now max_age note) t = (recover_stuck now max_age note t).0
apply (rollback q note expected) t = (rollback_iter q note expected t).0
apply (park now q note expected) t = (park_exhausted now q note expected t).0
apply (fail now q note expected) t = (fail_queue now q note expected t).0
apply (requeue q note) t = (requeue_failed q note t).0
apply (set_run q run) t = (set_active_run q run t).0
apply (complete now q verdict wf note expected) t =
    (complete_queue now q verdict wf note expected t).0
apply (regime q label analysis) t = update_regime_label q label analysis t
apply (reset q note expected) t = (reset_to_pending q note expected t).0
apply (cancel now q note) t = (cancel_queue now q note t).0
apply (attach q iteration run fence) t = (attach_iteration q iteration run fence t).0

unfoldable pub run : List Op → List Row → List Row
run [] t = t
run (o ∷ os) t = run os (apply o t)

-- An UPDATE that keeps ids and soundness of the rows it touches keeps the invariant.
module _ (p : Row → Bool) (f : Row → Row) (keeps : (r : Row) → (f r).queue_id ≡ r.queue_id)
    (sound : (r : Row) → p r ≡ true → IsSound r → IsSound (f r)) where
  update_where-All : (t : List Row) → All IsSound t → All IsSound (update_where p f t).0
  unfolding update_where
  update_where-All [] s = tt
  update_where-All (r ∷ rs) s = elim (Bool-cases (p r)) [
    | inl e ↦ rw e (sound r e s.0, update_where-All rs s.1)
    | inr e ↦ rw e (s.0, update_where-All rs s.1)
  ]

  update_where-IsValid : (t : List Row) → IsValid t → IsValid (update_where p f t).0
  update_where-IsValid t v = record {
    keyed = update_where-IsKeyed p f keeps t v.keyed;
    sound = update_where-All t v.sound;
  }

find-append :
    (j : ℕ) (t : List Row) (r : Row)
    → find j t ≡ none
    → find j (t ++ r ∷ []) ≡ (if r.queue_id == j then some r else none)
unfolding find
find-append j [] r h = refl
find-append j (x ∷ xs) r h = ground (arith, find-append j xs r)

append-IsKeyed :
    (t : List Row) (r : Row) → find r.queue_id t ≡ none → IsKeyed t → IsKeyed (t ++ r ∷ [])
unfolding find
append-IsKeyed [] r h k = (refl, tt)
append-IsKeyed (x ∷ xs) r h k = ground (arith, append-IsKeyed xs r, find-append x.queue_id xs r k.0)

append-All : (t : List Row) (r : Row) → IsSound r → All IsSound t → All IsSound (t ++ r ∷ [])
append-All [] r h s = (h, tt)
append-All (x ∷ xs) r h s = (s.0, append-All xs r h s.1)

insert_keyed-IsValid :
    (fresh now : ℕ) (n : NewRow) (track : Option String) (t : List Row)
    → IsValid t
    → IsValid (insert_keyed fresh now n track t)
unfolding insert_keyed insert_queue
insert_keyed-IsValid fresh now n track t v = elim (Option-cases (find fresh t)) [
  | inr (r, e) ↦ rw e v
  | inl e ↦ rw e (record {
    keyed = append-IsKeyed t _ e v.keyed;
    sound = append-All t _ (ground arith) v.sound;
  })
]

claim_selected-IsValid :
    (now : ℕ) (t : List Row) (o : Option Row) → IsValid t → IsValid (claim_selected now t o).0
unfolding claim_selected
claim_selected-IsValid now t none v = v
claim_selected-IsValid now t (some r) v =
    update_where-IsValid _ _ (λ q. refl) (λ q e s. ground arith) t v

-- Every statement, whatever its arguments, keeps ids unique and rows sound.
pub apply-IsValid : (o : Op) (t : List Row) → IsValid t → IsValid (apply o t)
unfolding apply claim_next recover_stuck rollback_iter park_exhausted fail_queue requeue_failed
    set_active_run complete_queue update_regime_label reset_to_pending cancel_queue attach_iteration
apply-IsValid (insert fresh now n track) t v = insert_keyed-IsValid fresh now n track t v
apply-IsValid (claim locked track now) t v = claim_selected-IsValid now t _ v
apply-IsValid _ t v = update_where-IsValid _ _ (λ q. refl) (λ q e s. ground arith) t v

-- From a table with unique ids and sound rows, any sequence of statements leads to another: no two
-- rows share an id, every RUNNING row has a start, every parked, completed or failed row has an
-- end, and no completed or failed row points to a run.
pub run-IsValid : (os : List Op) (t : List Row) → IsValid t → IsValid (run os t)
unfolding run
run-IsValid [] t v = v
run-IsValid (o ∷ os) t v = run-IsValid os (apply o t) (apply-IsValid o t v)
