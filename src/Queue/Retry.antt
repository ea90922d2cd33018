-- ===== src/Queue/Retry.antt =====
-- A claimed row that goes back to PENDING, and the combination that its next claim derives.
use research_orchestrator.Prelude.{
  ℕ, String, ◌≡◌, subst, Bool, Option, none, some, List, arith, ◌∙◌, ◌<◌, ◌+◌, ◌*◌, ==_refl, refl,
}
use research_orchestrator.Queue.{
  Row, Claim, claim_next, pending, running, failed, find, recover_stuck, rollback_iter, fail_queue,
  requeue_failed, claimed_row, is_stuck, recovered, selects, rolled_back, failed_row, requeued,
}
use research_orchestrator.Queue.View.{IsKeyed, find-update_where, find_id}
use research_orchestrator.Queue.Claims.{Claims, Claimed, claim_next-Claimed}

-- The row is PENDING, and the next claim of it will return the counter `n`.
abbrev pub WaitsAt : ℕ → Option Row → Type 0
WaitsAt n none = ⊥
WaitsAt n (some r) = (r.status ≡ pending) × (r.iteration_number ≡ n)

module _ {locked : ℕ → Bool} {track : Option String} {now : ℕ} {t t' : List Row} {c : Claim}
    (claims : Claims locked track now t t' c) where
  held_after : find c.queue_id t' ≡ some (claimed_row now claims.row)
  held_after = claims.after c.queue_id ∙ rw (==_refl c.queue_id)

  named : claims.row.queue_id ≡ c.queue_id
  named = find_id c.queue_id t claims.row claims.held

  retry_rollback :
      (note : String)
      → WaitsAt c.prior_iter (find c.queue_id (rollback_iter c.queue_id note (some running) t').0)
  unfolding rollback_iter
  retry_rollback note =
      rw
        (find-update_where (selects c.queue_id (some running)) (rolled_back note) (λ q. refl)
          c.queue_id t')
        (rw held_after (unfold claimed_row in ground (arith, named, claims.prior)))

  retry_recover :
      (now₂ max_age : ℕ) (note : String)
      → now + max_age * 1000000 < now₂
      → WaitsAt c.prior_iter (find c.queue_id (recover_stuck now₂ max_age note t').0)
  unfolding recover_stuck
  retry_recover now₂ max_age note late =
      rw (find-update_where (is_stuck now₂ max_age) (recovered note) (λ q. refl) c.queue_id t')
        (rw held_after (unfold claimed_row in ground (arith, claims.prior)))

  find-fail_queue :
      (now₂ : ℕ) (note : String)
      → find c.queue_id (fail_queue now₂ c.queue_id note (some running) t').0
        ≡ some (failed_row now₂ note (claimed_row now claims.row))
  unfolding fail_queue
  find-fail_queue now₂ note =
      rw
        (find-update_where (selects c.queue_id (some running)) (failed_row now₂ note) (λ q. refl)
          c.queue_id t')
        (rw held_after (unfold claimed_row in ground (arith, named)))

  retry_requeue :
      (now₂ : ℕ) (note note₂ : String)
      → WaitsAt c.prior_iter (
          find c.queue_id
            (requeue_failed c.queue_id note₂
              (fail_queue now₂ c.queue_id note (some running) t').0).0)
  unfolding requeue_failed
  retry_requeue now₂ note note₂ =
      rw
        (find-update_where (selects c.queue_id (some failed)) (requeued note₂) (λ q. refl)
          c.queue_id (fail_queue now₂ c.queue_id note (some running) t').0)
        (rw (find-fail_queue now₂ note)
          (unfold failed_row claimed_row in ground (arith, named, claims.prior)))

-- After a claim, a rollback, a recovery by the reaper once the row is overdue, and a failure that
-- the operator requeues each leave the claimed row PENDING with the counter that the claim
-- returned, so no combination of the sweep is skipped.
pub retry_same_cell :
    (locked : ℕ → Bool) (track : Option String) (now : ℕ) (t t' : List Row) (c : Claim)
    (now₂ max_age : ℕ) (note note₂ : String)
    → IsKeyed t
    → claim_next locked track now t ≡ (t', some c)
    → now + max_age * 1000000 < now₂
    → WaitsAt c.prior_iter (find c.queue_id (rollback_iter c.queue_id note (some running) t').0)
      × WaitsAt c.prior_iter (find c.queue_id (recover_stuck now₂ max_age note t').0)
      × WaitsAt c.prior_iter (
          find c.queue_id
            (requeue_failed c.queue_id note₂
              (fail_queue now₂ c.queue_id note (some running) t').0).0)
retry_same_cell locked track now t t' c now₂ max_age note note₂ k h late =
    let claims = subst (Claimed locked track now t) h (claim_next-Claimed locked track now t k) in
    (
      retry_rollback claims note,
      retry_recover claims now₂ max_age note late,
      retry_requeue claims now₂ note note₂,
    )
