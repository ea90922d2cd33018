-- ===== src/Drain/Graduation.antt =====
-- When a drain says that an iteration may graduate.
use research_orchestrator.Prelude.{
  ℕ, zero, suc, ◌+◌, ◌*◌, ◌≡◌, refl, sym, ap, ◌∙◌, Bool, true, false, Option, none, some, arith,
  leb, Bool-cases, inl, inr,
}
use research_orchestrator.Builtins.{Builtins}
use research_orchestrator.Verdict.{Decision, pass, discard, iterate, other_decision}
use research_orchestrator.Tick.{
  World, Env, Result, ok, err, Failure, TickResult, Outcome, iterated, Next, graduate, wait, domain,
  crash, empty_queue, sweep_exhausted, other_outcome, run_tick, retry_hint,
}
use research_orchestrator.Tick.Summaries.{branch, next_action-branch}
use research_orchestrator.Drain.{
  Terminal, drained_graduate, Tally, empty_tally, Pass, stop, again, waited, after_next,
  failure_terminal, is_config_fail, is_uncaught, pass_of, Drained, proceed, drain_from, drain_ticks,
}

abbrev is_graduate : Terminal → Bool
is_graduate drained_graduate = true
is_graduate _ = false

abbrev stops_at_graduate : Pass → Bool
stops_at_graduate (stop t tally) = is_graduate t
stops_at_graduate (again waits tally) = false

waited-graduate :
    (deadline max_waits now ms waits : ℕ) (t : Tally)
    → stops_at_graduate (waited deadline max_waits now ms waits t) ≡ false
unfolding waited
waited-graduate deadline max_waits now ms waits t = elim (Bool-cases (leb max_waits (waits + 1))) [
  | inl e ↦ rw e refl
  | inr e ↦
      rw e (elim (Bool-cases (leb deadline (now + ms))) [ inl d ↦ rw d refl | inr d ↦ rw d refl ])
]

after_next-graduate :
    (deadline max_waits now ms waits : ℕ) (next : Next) (t : Tally)
    → stops_at_graduate (after_next deadline max_waits now ms waits next t) ≡ true
    → next ≡ graduate
unfolding after_next
after_next-graduate deadline max_waits now ms waits graduate t h = refl
after_next-graduate deadline max_waits now ms waits wait t h =
    ground (arith, h, waited-graduate deadline max_waits now ms waits t)
after_next-graduate deadline max_waits now ms waits _ t h = ground (arith, h)

failure-graduate : (f : Failure) → is_graduate (failure_terminal f) ≡ false
unfolding failure_terminal
failure-graduate (domain code retryable tag) = elim (Bool-cases (is_config_fail code)) [
  | inl e ↦ rw e refl
  | inr e ↦ rw e refl
]
failure-graduate (crash name) = elim (Bool-cases (is_uncaught name)) [
  | inl e ↦ rw e refl
  | inr e ↦ rw e refl
]

-- Of all outcomes only an iteration with a PASS branches to GRADUATE.
branch-graduate :
    (o : Outcome) (d : Option Decision) (hint : Bool)
    → branch o d hint ≡ graduate
    → (o ≡ iterated) × (d ≡ some pass)
branch-graduate iterated (some pass) hint h = (refl, refl)
branch-graduate iterated (some discard) hint h = ground (arith, h)
branch-graduate iterated (some iterate) hint h = ground (arith, h)
branch-graduate iterated (some (other_decision s)) hint h = ground (arith, h)
branch-graduate iterated none hint h = ground (arith, h)
branch-graduate empty_queue d hint h = ground (arith, h)
branch-graduate sweep_exhausted d hint h = ground (arith, h)
branch-graduate (other_outcome s) d true h = ground (arith, h)
branch-graduate (other_outcome s) d false h = ground (arith, h)

module _ (b : Builtins) where
  open b use {F}

  -- The last tick of the drain returned an iteration with verdict PASS, and nothing followed it.
  abbrev pub IsPassed : Result (TickResult F) → Type 0
  IsPassed (ok r) = (r.outcome ≡ iterated) × (r.verdict ≡ some pass)
  IsPassed (err failure) = ⊥

  -- Some tick passed, and the drain ended with the world that it left.
  abbrev pub IsGraduated : (ℕ → Env F) → Drained b → Type 0
  IsGraduated env d =
      (i : ℕ) × (v : World F) × IsPassed (run_tick b (env i) v).0 × (d.2 ≡ (run_tick b (env i) v).1)

  pass_of-graduate :
      (deadline max_waits now waits : ℕ) (r : Result (TickResult F)) (t : Tally)
      → stops_at_graduate (pass_of b deadline max_waits now waits r t) ≡ true
      → IsPassed r
  unfolding pass_of
  pass_of-graduate deadline max_waits now waits (ok r) t h =
      branch-graduate r.outcome r.verdict (retry_hint r.next_actions) (
        sym (next_action-branch b r.outcome r.stat r.verdict r.next_actions r.pf r.n_trades)
        ∙ after_next-graduate deadline max_waits now _ waits _ _ h)
  pass_of-graduate deadline max_waits now waits (err failure) t h =
      ground (arith, h, failure-graduate failure)

  module _ (env : ℕ → Env F) (before after : ℕ → ℕ) (deadline max_waits : ℕ) where
    abbrev drain : (left i waits : ℕ) → Tally → World F → Drained b
    drain = drain_from b env before after deadline max_waits

    proceed-graduate :
        (i : ℕ) (v : World F) (p : Pass) (k : ℕ → Tally → Drained b)
        → (stops_at_graduate p ≡ true → IsPassed (run_tick b (env i) v).0)
        → ((waits : ℕ) (t : Tally) → is_graduate (k waits t).0 ≡ true → IsGraduated env (k waits t))
        → is_graduate (proceed b p (run_tick b (env i) v).1 k).0 ≡ true
        → IsGraduated env (proceed b p (run_tick b (env i) v).1 k)
    unfolding proceed
    proceed-graduate i v (stop t tally) k passed g h = (i, v, passed h, refl)
    proceed-graduate i v (again waits tally) k passed g h = g waits tally h

    pub drain_from-graduate :
        (left i waits : ℕ) (t : Tally) (w : World F)
        → is_graduate (drain left i waits t w).0 ≡ true
        → IsGraduated env (drain left i waits t w)
    unfolding drain_from
    drain_from-graduate zero i waits t w = λ h. ground (arith, h)
    drain_from-graduate (suc left) i waits t w = elim (Bool-cases (leb deadline (before i))) [
      | inl e ↦ rw e (λ h. ground (arith, h))
      | inr e ↦ rw e (
          proceed-graduate i w _ _
            (pass_of-graduate deadline max_waits (after i) waits (run_tick b (env i) w).0 t)
            (λ waits' t'. drain_from-graduate left (suc i) waits' t' _))
    ]

  -- A drain that answers GRADUATE has stopped at a tick that iterated with verdict PASS: the world
  -- it leaves is the one that this tick left.
  pub drain_ticks-IsGraduated :
      (env : ℕ → Env F) (before after : ℕ → ℕ) (max_iters max_wall max_waits started : ℕ)
      (w : World F)
      → (drain_ticks b env before after max_iters max_wall max_waits started w).0 ≡ drained_graduate
      → IsGraduated env (drain_ticks b env before after max_iters max_wall max_waits started w)
  unfolding drain_ticks
  drain_ticks-IsGraduated env before after max_iters max_wall max_waits started w h =
      drain_from-graduate env before after (started + max_wall * 1000) max_waits max_iters 0 0
        empty_tally w (ap is_graduate h)
