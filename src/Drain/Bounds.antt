-- ===== src/Drain/Bounds.antt =====
-- A drain as a whole, over its ticks.
use research_orchestrator.Prelude.{
  ℕ, zero, suc, ◌+◌, ◌≤◌, ◌≡◌, ap, ◌⊎◌, none, List, ◌∷◌, ◌++◌, arith, leb, Bool-cases, inl, inr,
  length,
}
use research_orchestrator.Builtins.{Builtins}
use research_orchestrator.Tick.{
  World, Env, Stage, logging, Iteration, find_iteration_for_run, run_tick, Payload,
}
use research_orchestrator.Tick.Submissions.{run_tick-IsSentOnce}
use research_orchestrator.Tick.LoggedOnce.{IsLoggedOnce, run_tick-IsLoggedOnce}
use research_orchestrator.Drain.{
  Tally, empty_tally, Pass, stop, again, Drained, proceed, drain_from, drain_ticks,
}
use research_orchestrator.Drain.Tallies.{IsWithin, PassWithin, pass_of-IsWithin, shifted, capped}

sent_length :
    (sent later : List Payload)
    → (later ≡ sent) ⊎ ((p : Payload) × (later ≡ p ∷ sent))
    → length later ≤ length sent + 1
sent_length sent later (inl e) = ground (arith, ap length e)
sent_length sent later (inr (p, e)) = ground (arith, ap length e)

one_less : (n m k left : ℕ) → k ≤ m + left → m ≤ n + 1 → k ≤ n + suc left
one_less n m k left h g = omega (arith, h, g)

module _ (b : Builtins) where
  open b use {F}

  module _ (env : ℕ → Env F) (before after : ℕ → ℕ) (deadline max_waits : ℕ) where
    abbrev drain : (left i waits : ℕ) → Tally → World F → Drained b
    drain = drain_from b env before after deadline max_waits

    proceed-IsWithin :
        (n m : ℕ) (p : Pass) (w : World F) (k : ℕ → Tally → Drained b)
        → n ≤ m
        → PassWithin n p
        → ((waits : ℕ) (t : Tally) → IsWithin n t → IsWithin m (k waits t).1)
        → IsWithin m (proceed b p w k).1
    unfolding proceed
    proceed-IsWithin n m (stop terminal t) w k le h g = record {
      iterations = omega (arith, h.iterations, le);
      verdicts = h.verdicts;
      discards = h.discards;
    }
    proceed-IsWithin n m (again waits t) w k le h g = g waits t h

    pub drain_from-IsWithin :
        (left i waits n : ℕ) (t : Tally) (w : World F)
        → IsWithin n t
        → IsWithin (left + n) (drain left i waits t w).1
    unfolding drain_from
    drain_from-IsWithin zero i waits n t w h = record {
      iterations = omega (arith, h.iterations);
      verdicts = h.verdicts;
      discards = h.discards;
    }
    drain_from-IsWithin (suc left) i waits n t w h = elim (Bool-cases (leb deadline (before i))) [
      | inl e ↦ rw e (record {
        iterations = omega (arith, h.iterations);
        verdicts = h.verdicts;
        discards = h.discards;
      })
      | inr e ↦ rw e (
          proceed-IsWithin (n + 1) (suc left + n) _ _ _ (omega arith)
            (pass_of-IsWithin b deadline max_waits (after i) waits n (run_tick b (env i) w).0 t h)
            (λ waits' t' h'.
              shifted left n (drain_from-IsWithin left (suc i) waits' (n + 1) t' _ h')))
    ]

    -- A predicate on the world that every tick keeps.
    module _ (P : World F → Type 0)
        (keeps : (i : ℕ) (w : World F) → P w → P (run_tick b (env i) w).1) where
      proceed-keeps :
          (p : Pass) (w : World F) (k : ℕ → Tally → Drained b)
          → P w
          → ((waits : ℕ) (t : Tally) → P (k waits t).2)
          → P (proceed b p w k).2
      unfolding proceed
      proceed-keeps (stop terminal t) w k h g = h
      proceed-keeps (again waits t) w k h g = g waits t

      pub drain_from-keeps :
          (left i waits : ℕ) (t : Tally) (w : World F) → P w → P (drain left i waits t w).2
      unfolding drain_from
      drain_from-keeps zero i waits t w h = h
      drain_from-keeps (suc left) i waits t w h = elim (Bool-cases (leb deadline (before i))) [
        | inl e ↦ rw e h
        | inr e ↦ rw e (
            proceed-keeps _ _ _ (keeps i w h)
              (λ waits' t'. drain_from-keeps left (suc i) waits' t' _ (keeps i w h)))
      ]

    proceed-sent :
        (n : ℕ) (p : Pass) (w : World F) (k : ℕ → Tally → Drained b)
        → length w.submitted ≤ n
        → ((waits : ℕ) (t : Tally) → length (k waits t).2.submitted ≤ n)
        → length (proceed b p w k).2.submitted ≤ n
    unfolding proceed
    proceed-sent n (stop terminal t) w k h g = h
    proceed-sent n (again waits t) w k h g = g waits t

    pub drain_from-sent :
        (left i waits : ℕ) (t : Tally) (w : World F)
        → length (drain left i waits t w).2.submitted ≤ length w.submitted + left
    unfolding drain_from
    drain_from-sent zero i waits t w = omega arith
    drain_from-sent (suc left) i waits t w = elim (Bool-cases (leb deadline (before i))) [
      | inl e ↦ rw e (omega arith)
      | inr e ↦ rw e (
          proceed-sent (length w.submitted + suc left) _ (run_tick b (env i) w).1 _
            (omega (arith, one_more i w))
            (λ waits' t'.
              one_less (length w.submitted) _ _ left
                (drain_from-sent left (suc i) waits' t' (run_tick b (env i) w).1) (one_more i w)))
    ]
      where
        one_more :
            (i : ℕ) (w : World F)
            → length (run_tick b (env i) w).1.submitted ≤ length w.submitted + 1
        one_more i w = sent_length w.submitted _ (run_tick-IsSentOnce b (env i) w)

  module _ (env : ℕ → Env F) (before after : ℕ → ℕ) (max_iters max_wall max_waits started : ℕ) where
    abbrev drained : World F → Drained b
    drained = drain_ticks b env before after max_iters max_wall max_waits started

    -- A drain counts at most `max_iters` iterations, at most one statistical verdict (SIGNIFICANT_EDGE,
    -- INSUFFICIENT_EVIDENCE or NO_EDGE) for each of them, and no more discards than iterations.
    pub drain_ticks-IsWithin : (w : World F) → IsWithin max_iters (drained w).1
    unfolding drain_ticks
    drain_ticks-IsWithin w = capped max_iters (
        drain_from-IsWithin env before after _ max_waits max_iters 0 0 0 empty_tally w
          (record { iterations = omega arith; verdicts = omega arith; discards = omega arith }))

    -- A drain sends the JVM at most one request for each of its `max_iters` ticks.
    drain_ticks-sent :
        (w : World F) → length (drained w).2.submitted ≤ length w.submitted + max_iters
    unfolding drain_ticks
    drain_ticks-sent w = drain_from-sent env before after _ max_waits max_iters 0 0 empty_tally w

    -- A drain keeps the iteration log at one row per run, where other sessions do, and where none of
    -- them logs a run between the look of a tick and its insert.
    drain_ticks-IsLoggedOnce :
        ((i : ℕ) (s : Stage) (is : List (Iteration F))
          → IsLoggedOnce is
          → IsLoggedOnce ((env i).logged_meanwhile s is ++ is))
        → ((i run : ℕ) (is : List (Iteration F))
            → find_iteration_for_run run is ≡ none
            → find_iteration_for_run run ((env i).logged_meanwhile logging is ++ is) ≡ none)
        → (w : World F) → IsLoggedOnce w.iterations
        → IsLoggedOnce (drained w).2.iterations
    unfolding drain_ticks
    drain_ticks-IsLoggedOnce others unraced w h =
        drain_from-keeps env before after _ max_waits (λ v. IsLoggedOnce v.iterations)
          (λ i v. run_tick-IsLoggedOnce b (env i) (others i) (unraced i) v) max_iters 0 0
          empty_tally w h
