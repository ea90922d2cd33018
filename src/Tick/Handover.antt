-- ===== src/Tick/Handover.antt =====
-- The row that a tick claimed, when the tick ends.
use research_orchestrator.Prelude.{
  ℕ, String, ◌≡◌, refl, Bool, true, false, ◌||◌, Option, none, some, List, Bool-cases, inl, inr,
}
use research_orchestrator.Prelude.Dict.{Dict}
use research_orchestrator.Builtins.{Builtins}
use research_orchestrator.Sweep.{Value, is_tpe}
use research_orchestrator.Queue.{Row, Claim, fail_queue, rollback_iter, park_exhausted, claim_next}
use research_orchestrator.Tick.{
  World, Coroutine, Result, ok, err, Failure, domain, crash, after, Env, checkpoint, update_queue,
  fail_row, sampled, next_combo, next_combo_tpe, park_sweep, Account, submit_backtest, payload_of,
  submit_combo, with_account, with_combo, derive_and_submit, Submission, exhausted, submitted_as,
  TickResult, planning, auditing, submitting, dispatched, resuming, Resume, resume_or_submit,
  after_submission, execute_after_claim, rollback, on_failed, guarded, run_claim, run_tick,
  write_audit, reap, Reply, accepted, rejected, lost, replied,
}
use research_orchestrator.Tick.Settles.{
  is_settled, update_where-is_settled, is_reclaimed, Raised, IsOpen, IsClosed, after-IsClosed,
  checkpoint-IsOpen,
}
use research_orchestrator.Tick.Release.{poll_and_finish-IsClosed}

module _ (b : Builtins) (e : Env (b.F)) (c : Claim) where
  open b use {F}

  abbrev q : ℕ
  q = c.queue_id

  -- What a step returns, if it returns a submission: an exhausted sweep has its row parked.
  abbrev IsHandled : Result Submission × World F → Type 0
  IsHandled (ok (exhausted note), w) = is_settled q w.queue ≡ true
  IsHandled (ok (submitted_as combo audit trials run), w) = Unit
  IsHandled (err failure, w) = Raised q failure w

  after-IsHandled :
      {A : Type 0} (r : Result A × World F) (f : A → Coroutine F Submission)
      → IsOpen q r
      → ((a : A) (w : World F) → IsHandled (f a w))
      → IsHandled (after r.0 f r.1)
  after-IsHandled (ok a, w) f h k = k a w
  after-IsHandled (err failure, w) f h k = h

  sampled-IsOpen : (r : Result (Option (Dict Value))) (w : World F) → IsOpen q (sampled b e c r w)
  unfolding sampled fail_row update_queue fail_queue
  sampled-IsOpen (ok combo) w = tt
  sampled-IsOpen (err failure) w = update_where-is_settled q _ w.queue (λ r. refl)

  next_combo-IsOpen : (w : World F) → IsOpen q (next_combo b e c w)
  unfolding next_combo
  next_combo-IsOpen w = elim (Bool-cases (is_tpe c.sweep_config)) [
    | inl h ↦ rw h (sampled-IsOpen (next_combo_tpe b e c) w)
    | inr h ↦ rw h tt
  ]

  park_sweep-IsHandled : (w : World F) → IsHandled (park_sweep b e c w)
  unfolding park_sweep update_queue park_exhausted
  park_sweep-IsHandled w = update_where-is_settled q _ w.queue (λ r. refl)

  replied-IsOpen : (r : Reply) (w : World F) → IsOpen q (replied b e c r, w)
  unfolding replied
  replied-IsOpen (accepted run) w = tt
  replied-IsOpen (rejected code retryable) w = refl
  replied-IsOpen (lost class_name) w = refl

  submit_combo-IsHandled :
      (account : Account) (combo : Dict Value) (w : World F)
      → IsHandled (submit_combo b e c account combo w)
  unfolding submit_combo write_audit submit_backtest update_queue
  submit_combo-IsHandled account combo w =
      after-IsHandled (checkpoint e auditing w) _ (checkpoint-IsOpen q e auditing w) λ u w₁.
        after-IsHandled (checkpoint e submitting _) _ (checkpoint-IsOpen q e submitting _) λ v w₂.
          after-IsHandled (replied b e c (e.submit_backtest (payload_of b e c account combo)), _) _
            (replied-IsOpen (e.submit_backtest (payload_of b e c account combo)) _)
            λ run w₃.
              after-IsHandled (checkpoint e dispatched w₃) _ (checkpoint-IsOpen q e dispatched w₃)
                (λ x w₄. tt)

  with_account-IsHandled :
      (combo : Dict Value) (o : Option Account) (w : World F)
      → IsHandled (with_account b e c combo o w)
  unfolding with_account fail_row update_queue fail_queue
  with_account-IsHandled combo none w = update_where-is_settled q _ w.queue (λ r. refl)
  with_account-IsHandled combo (some account) w = submit_combo-IsHandled account combo w

  with_combo-IsHandled : (o : Option (Dict Value)) (w : World F) → IsHandled (with_combo b e c o w)
  unfolding with_combo
  with_combo-IsHandled none w = park_sweep-IsHandled w
  with_combo-IsHandled (some combo) w = with_account-IsHandled combo _ w

  derive_and_submit-IsHandled : (w : World F) → IsHandled (derive_and_submit b e c w)
  unfolding derive_and_submit
  derive_and_submit-IsHandled w =
      after-IsHandled (checkpoint e planning w) _ (checkpoint-IsOpen q e planning w)
        λ u w₁. after-IsHandled (next_combo b e c w₁) _ (next_combo-IsOpen w₁) with_combo-IsHandled

  after_submission-IsClosed :
      (r : Result Submission × World F)
      → IsHandled r
      → IsClosed q (after r.0 (after_submission b e c) r.1)
  unfolding after_submission
  after_submission-IsClosed (ok (exhausted note), w) h = h
  after_submission-IsClosed (ok (submitted_as combo audit trials run), w) h =
      poll_and_finish-IsClosed b e c run combo (some audit) trials false w
  after_submission-IsClosed (err failure, w) h = h

  resume_or_submit-IsClosed :
      (o : Option Resume) (w : World F) → IsClosed q (resume_or_submit b e c o w)
  unfolding resume_or_submit
  resume_or_submit-IsClosed none w =
      after_submission-IsClosed (derive_and_submit b e c w) (derive_and_submit-IsHandled w)
  resume_or_submit-IsClosed (some r) w =
      poll_and_finish-IsClosed b e c r.run r.combo r.audit_id _ r.skip_poll w

  pub execute_after_claim-IsClosed : (w : World F) → IsClosed q (execute_after_claim b e c w)
  unfolding execute_after_claim
  execute_after_claim-IsClosed w =
      after-IsClosed q (checkpoint e resuming w) _ (checkpoint-IsOpen q e resuming w)
        (λ u w₁. resume_or_submit-IsClosed _ w₁)

-- The tick ended on a fence that no longer holds.
abbrev pub lost_fence : {A : Type 0} → Result A → Bool
lost_fence (ok a) = false
lost_fence (err failure) = is_reclaimed failure

module _ (b : Builtins) (e : Env (b.F)) where
  open b use {F}

  rollback-is_settled :
      (q : ℕ) (note : String) (t : List Row)
      → e.rollback_fails ≡ false
      → is_settled q (rollback b e q note t) ≡ true
  unfolding rollback rollback_iter
  rollback-is_settled q note t h = rw h (update_where-is_settled q _ t (λ r. refl))

  on_failed-is_settled :
      (q : ℕ) (failure : Failure) (w : World F)
      → e.rollback_fails ≡ false
      → Raised q failure w
      → (is_reclaimed failure || is_settled q (on_failed b e q failure w.queue)) ≡ true
  unfolding on_failed
  on_failed-is_settled q (domain code retryable true) w h k = k
  on_failed-is_settled q (domain code retryable false) w h k = rollback-is_settled q _ w.queue h
  on_failed-is_settled q (crash name) w h k = rollback-is_settled q _ w.queue h

  guarded-is_settled :
      (q : ℕ) (r : Result (TickResult F) × World F)
      → e.rollback_fails ≡ false
      → IsClosed q r
      → (lost_fence (guarded b e q r).0 || is_settled q (guarded b e q r).1.queue) ≡ true
  unfolding guarded
  guarded-is_settled q (ok a, w) h k = k
  guarded-is_settled q (err failure, w) h k = on_failed-is_settled q failure w h k

  -- Whatever the tick meets on its way (an exhausted sweep, a missing account, a JVM error, a failed
  -- or an endless run, a crash between any two steps, other sessions that write the queue at any
  -- step), and where the handler's own statement works, no row with the claimed id is RUNNING when
  -- the tick ends, unless the tick ends on a fence that no longer holds.
  pub run_tick-is_settled :
      (w : World F) (c : Claim)
      → (claim_next e.locked e.track e.started (reap b e w.queue)).1 ≡ some c
      → e.rollback_fails ≡ false
      → (lost_fence (run_tick b e w).0 || is_settled c.queue_id (run_tick b e w).1.queue) ≡ true
  unfolding run_tick run_claim
  run_tick-is_settled w c claimed h =
      rw claimed (guarded-is_settled c.queue_id _ h (execute_after_claim-IsClosed b e c _))
