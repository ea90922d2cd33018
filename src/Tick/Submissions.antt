-- ===== src/Tick/Submissions.antt =====
-- The requests of a tick to the JVM, over the paths that it can take.
use research_orchestrator.Prelude.{
  ℕ, String, ◌≡◌, refl, ◌∙◌, Bool, false, ◌⊎◌, Option, none, some, List, ◌∷◌, Bool-cases, inl, inr,
  arith,
}
use research_orchestrator.Prelude.Dict.{Dict}
use research_orchestrator.Builtins.{Builtins}
use research_orchestrator.Sweep.{Value, is_tpe}
use research_orchestrator.Verdict.{StatVerdict, Decision}
use research_orchestrator.Queue.{Row, Claim, claim_next}
use research_orchestrator.Tick.{
  World, Coroutine, Result, ok, err, after, Env, Stage, checkpoint, update_queue, Metrics,
  TickResult, Audit, Payload, Account, commit_evidence, update_backtest_run_dsr, backfill,
  poll_and_finish, fail_row, sampled, next_combo, next_combo_tpe, park_sweep, write_audit,
  submit_backtest, payload_of, submit_combo, with_account, with_combo, derive_and_submit, replied,
  Submission, exhausted, submitted_as, after_submission, Resume, to_resume, resume_or_submit,
  execute_after_claim, alive, guarded, run_claim, run_tick, reap, planning, auditing, submitting,
  dispatched, resuming,
}
use research_orchestrator.Tick.Evidence.{poll_and_finish-keeps}

-- P holds until the run is submitted, and Q from then on.
module _ (b : Builtins) (e : Env (b.F)) (c : Claim) (P Q : World (b.F) → Type 0)
    (weaken : (w : World (b.F)) → P w → Q w)
    (on_queue : (w : World (b.F)) (t : List Row) → P w → P (record w { queue = t }))
    (on_audits : (w : World (b.F)) (t : List Audit) → P w → P (record w { audits = t }))
    (on_sent : (w : World (b.F)) (p : Payload) → P w → Q (record w { submitted = p ∷ w.submitted }))
    (on_queue' : (w : World (b.F)) (t : List Row) → Q w → Q (record w { queue = t }))
    (on_meanwhile : (s : Stage) (w : World (b.F)) → P w → P (checkpoint e s w).1)
    (on_meanwhile' : (s : Stage) (w : World (b.F)) → Q w → Q (checkpoint e s w).1) where
  open b use {F}

  after-leads :
      {A B : Type 0} (R S : World F → Type 0) (r : Result A × World F) (f : A → Coroutine F B)
      → ((w : World F) → R w → S w)
      → R r.1
      → ((a : A) (w : World F) → R w → S (f a w).1)
      → S (after r.0 f r.1).1
  after-leads R S (ok a, w) f g h k = k a w h
  after-leads R S (err failure, w) f g h k = g w h

  sampled-P : (r : Result (Option (Dict Value))) (w : World F) → P w → P (sampled b e c r w).1
  unfolding sampled fail_row update_queue
  sampled-P (ok combo) w h = h
  sampled-P (err failure) w h = on_queue w _ h

  next_combo-P : (w : World F) → P w → P (next_combo b e c w).1
  unfolding next_combo
  next_combo-P w h = elim (Bool-cases (is_tpe c.sweep_config)) [
    | inl t ↦ rw t (sampled-P (next_combo_tpe b e c) w h)
    | inr t ↦ rw t h
  ]

  submit_combo-leads :
      (account : Account) (combo : Dict Value) (w : World F)
      → P w
      → Q (submit_combo b e c account combo w).1
  unfolding submit_combo write_audit submit_backtest update_queue
  submit_combo-leads account combo w h =
      after-leads P Q (checkpoint e auditing w) _ weaken (on_meanwhile auditing w h) λ u w₁ h₁.
        after-leads P Q (checkpoint e submitting _) _ weaken
          (on_meanwhile submitting _ (on_audits w₁ _ h₁))
          λ v w₂ h₂.
            after-leads Q Q (replied b e c (e.submit_backtest (payload_of b e c account combo)), _)
              _ (λ w₃ h₃. h₃) (on_sent w₂ (payload_of b e c account combo) h₂)
              λ run w₃ h₃.
                after-leads Q Q (checkpoint e dispatched w₃) _ (λ w₄ h₄. h₄)
                  (on_meanwhile' dispatched w₃ h₃) (λ x w₄ h₄. on_queue' w₄ _ h₄)

  with_account-leads :
      (combo : Dict Value) (o : Option Account) (w : World F)
      → P w
      → Q (with_account b e c combo o w).1
  unfolding with_account fail_row update_queue
  with_account-leads combo none w h = weaken _ (on_queue w _ h)
  with_account-leads combo (some account) w h = submit_combo-leads account combo w h

  with_combo-leads : (o : Option (Dict Value)) (w : World F) → P w → Q (with_combo b e c o w).1
  unfolding with_combo park_sweep update_queue
  with_combo-leads none w h = weaken _ (on_queue w _ h)
  with_combo-leads (some combo) w h = with_account-leads combo _ w h

  pub derive_and_submit-leads : (w : World F) → P w → Q (derive_and_submit b e c w).1
  unfolding derive_and_submit
  derive_and_submit-leads w h =
      after-leads P Q (checkpoint e planning w) _ weaken (on_meanwhile planning w h) λ u w₁ h₁.
        after-leads P Q (next_combo b e c w₁) _ weaken (next_combo-P w₁ h₁) with_combo-leads

module _ (b : Builtins) (e : Env (b.F)) where
  open b use {F}

  pub commit_evidence-submitted :
      (c : Claim) (run : ℕ) (combo : Dict Value) (audit : Option ℕ) (trials : ℕ) (m : Metrics F)
      (verdicts : StatVerdict × Decision) (w : World F)
      → (commit_evidence b e c run combo audit trials m verdicts w).submitted ≡ w.submitted
  unfolding commit_evidence
  commit_evidence-submitted c run combo audit trials m verdicts w = filled audit _ ∙ stored m.dsr _
    where
      filled : (o : Option ℕ) (v : World F) → (backfill b e c o verdicts v).submitted ≡ v.submitted
      filled none v = refl
      filled (some a) v = refl

      stored :
          (o : Option F) (v : World F)
          → (update_backtest_run_dsr run o trials v).submitted ≡ v.submitted
      stored none v = refl
      stored (some d) v = refl

  -- Nothing is sent from the poll on.
  pub poll_and_finish-submitted :
      (c : Claim) (sent : List Payload) (run : ℕ) (combo : Dict Value) (audit : Option ℕ)
      (trials : ℕ) (skip : Bool) (w : World F)
      → w.submitted ≡ sent
      → (poll_and_finish b e c run combo audit trials skip w).1.submitted ≡ sent
  unfolding checkpoint
  poll_and_finish-submitted c sent =
      poll_and_finish-keeps b e c (λ w. w.submitted ≡ sent) (λ w t h. h) (λ w p h. h) (λ s w h. h)
        (λ run combo audit trials m verdicts w new h.
          commit_evidence-submitted c run combo audit trials m verdicts _ ∙ h)

  -- The handlers write to the queue alone.
  pub guarded-keeps :
      (P : World F → Type 0)
      → ((w : World F) (t : List Row) → P w → P (record w { queue = t }))
      → (q : ℕ) (r : Result (TickResult F) × World F) → P r.1
      → P (guarded b e q r).1
  unfolding guarded
  guarded-keeps P on_queue q (ok a, w) h = h
  guarded-keeps P on_queue q (err failure, w) h = on_queue w _ h

  -- A tick, by what holds before the claimed row is worked on and what holds after.
  pub run_tick-leads :
      (P Q : World F → Type 0)
      → ((w : World F) (t : List Row) → P w → P (record w { queue = t }))
      → ((w : World F) (t : List Row) → Q w → Q (record w { queue = t }))
      → ((w : World F) → P w → Q w)
      → ((c : Claim) (w : World F) → P w → Q (execute_after_claim b e c w).1)
      → (w : World F) → P w
      → Q (run_tick b e w).1
  unfolding run_tick run_claim
  run_tick-leads P Q on_queue on_queue' weaken k w h =
      claimed (claim_next e.locked e.track e.started (reap b e w.queue)).1 _ (on_queue w _ h)
    where
      claimed : (o : Option Claim) (v : World F) → P v → Q (run_claim b e o v).1
      claimed none v g = weaken v g
      claimed (some c) v g = guarded-keeps Q on_queue' c.queue_id _ (k c v g)

  -- The requests that the JVM has seen: those of before, and at most one more.
  abbrev pub IsSentOnce : List Payload → World F → Type 0
  IsSentOnce sent w = (w.submitted ≡ sent) ⊎ ((p : Payload) × (w.submitted ≡ p ∷ sent))

  after_submission-sent :
      (c : Claim) (sent : List Payload) (r : Result Submission × World F)
      → IsSentOnce sent r.1
      → IsSentOnce sent (after r.0 (after_submission b e c) r.1).1
  unfolding after_submission
  after_submission-sent c sent (ok (exhausted note), w) h = h
  after_submission-sent c sent (ok (submitted_as combo audit trials run), w) (inl h) =
      inl (poll_and_finish-submitted c sent run combo (some audit) trials false w h)
  after_submission-sent c sent (ok (submitted_as combo audit trials run), w) (inr (p, h)) =
      inr (p, poll_and_finish-submitted c (p ∷ sent) run combo (some audit) trials false w h)
  after_submission-sent c sent (err failure, w) h = h

  resume_or_submit-sent :
      (c : Claim) (sent : List Payload) (o : Option Resume) (w : World F)
      → w.submitted ≡ sent
      → IsSentOnce sent (resume_or_submit b e c o w).1
  unfolding resume_or_submit checkpoint
  resume_or_submit-sent c sent none w h = after_submission-sent c sent (derive_and_submit b e c w) (
      derive_and_submit-leads b e c (λ v. v.submitted ≡ sent) (IsSentOnce sent) (λ v g. inl g)
        (λ v t g. g) (λ v t g. g) (λ v p g. inr (p, ground (arith, g))) (λ v t g. g) (λ s v g. g)
        (λ s v g. g) w h)
  resume_or_submit-sent c sent (some r) w h =
      inl (poll_and_finish-submitted c sent r.run r.combo r.audit_id _ r.skip_poll w h)

  execute-sent :
      (c : Claim) (sent : List Payload) (w : World F)
      → w.submitted ≡ sent
      → IsSentOnce sent (execute_after_claim b e c w).1
  unfolding execute_after_claim checkpoint
  execute-sent c sent w h = started (e.dies resuming)
    where
      started :
          (o : Option String)
          → IsSentOnce sent
              (after
                (alive o)
                (λ u v. resume_or_submit b e c (to_resume c v) v)
                (checkpoint e resuming w).1).1
      started none = resume_or_submit-sent c sent _ _ h
      started (some name) = inl h

  -- A tick sends the JVM one request at most, whatever happens on its way.
  pub run_tick-IsSentOnce : (w : World F) → IsSentOnce w.submitted (run_tick b e w).1
  run_tick-IsSentOnce w =
      run_tick-leads (λ v. v.submitted ≡ w.submitted) (IsSentOnce w.submitted) (λ v t g. g)
        (λ v t g. g) (λ v g. inl g) (λ c v g. execute-sent c w.submitted v g) w refl
