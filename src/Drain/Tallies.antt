-- ===== src/Drain/Tallies.antt =====
-- What one pass adds to the tally of a drain.
use research_orchestrator.Prelude.{
  ℕ, suc, ◌+◌, ◌≤◌, ◌≡◌, refl, Option, some, arith, leb, Bool-cases, inl, inr,
}
use research_orchestrator.Builtins.{Builtins}
use research_orchestrator.Verdict.{
  StatVerdict, significant_edge, insufficient_evidence, no_edge, Decision, discard,
}
use research_orchestrator.Tick.{Result, ok, err, TickResult, Outcome, iterated, Next, wait}
use research_orchestrator.Drain.{
  Tally, Pass, stop, again, waited, after_next, counted_stat, counted_verdict, counted, noted,
  pass_of,
}

-- The counts of the three statistical verdicts add up; the discards stand apart from them.
abbrev pub verdicts_of : Tally → ℕ
verdicts_of t = t.sig + t.insuf + t.no_edges

counted_stat-iters :
    (s : Option StatVerdict) (t : Tally)
    → ((counted_stat s t).iters ≡ t.iters) × ((counted_stat s t).discards ≡ t.discards)
unfolding counted_stat
counted_stat-iters (some significant_edge) t = (refl, refl)
counted_stat-iters (some insufficient_evidence) t = (refl, refl)
counted_stat-iters (some no_edge) t = (refl, refl)
counted_stat-iters _ t = (refl, refl)

counted_stat-verdicts :
    (s : Option StatVerdict) (t : Tally) → verdicts_of (counted_stat s t) ≤ verdicts_of t + 1
unfolding counted_stat
counted_stat-verdicts (some significant_edge) t = omega arith
counted_stat-verdicts (some insufficient_evidence) t = omega arith
counted_stat-verdicts (some no_edge) t = omega arith
counted_stat-verdicts _ t = omega arith

counted_verdict-counts :
    (d : Option Decision) (t : Tally)
    → ((counted_verdict d t).iters ≡ t.iters)
      × (verdicts_of (counted_verdict d t) ≡ verdicts_of t)
      × ((counted_verdict d t).discards ≤ t.discards + 1)
unfolding counted_verdict
counted_verdict-counts (some discard) t = (refl, refl, omega arith)
counted_verdict-counts _ t = (refl, refl, omega arith)

-- A tally after a number of ticks: at most one iteration for each, and for each iteration at most
-- one statistical verdict and at most one discard.
pub record IsWithin (n : ℕ) (t : Tally) : Type 0 where
  pub iterations : t.iters ≤ n
  pub verdicts : verdicts_of t ≤ t.iters
  pub discards : t.discards ≤ t.iters

pub shifted : (left n : ℕ) {t : Tally} → IsWithin (left + (n + 1)) t → IsWithin (suc left + n) t
shifted left n h = record {
  iterations = omega (arith, h.iterations);
  verdicts = h.verdicts;
  discards = h.discards;
}

pub capped : (n : ℕ) {t : Tally} → IsWithin (n + 0) t → IsWithin n t
capped n h = record {
  iterations = omega (arith, h.iterations);
  verdicts = h.verdicts;
  discards = h.discards;
}

IsWithin-counted :
    (n : ℕ) (d : Option Decision) (s : Option StatVerdict) (u : Tally)
    → u.iters ≤ n
    → verdicts_of u + 1 ≤ u.iters
    → u.discards + 1 ≤ u.iters
    → IsWithin n (counted_verdict d (counted_stat s u))
IsWithin-counted n d s u h k l = record {
  iterations =
      omega (arith, (counted_verdict-counts d (counted_stat s u)).0, (counted_stat-iters s u).0, h);
  verdicts = omega (
    arith,
    (counted_verdict-counts d (counted_stat s u)).0,
    (counted_verdict-counts d (counted_stat s u)).1,
    (counted_stat-iters s u).0,
    counted_stat-verdicts s u,
    k,
  );
  discards = omega (
    arith,
    (counted_verdict-counts d (counted_stat s u)).0,
    (counted_verdict-counts d (counted_stat s u)).2,
    (counted_stat-iters s u).0,
    (counted_stat-iters s u).1,
    l,
  );
}

abbrev pub PassWithin : ℕ → Pass → Type 0
PassWithin n (stop terminal t) = IsWithin n t
PassWithin n (again waits t) = IsWithin n t

waited-IsWithin :
    (deadline max_waits now ms waits n : ℕ) (t : Tally)
    → IsWithin n t
    → PassWithin n (waited deadline max_waits now ms waits t)
unfolding waited
waited-IsWithin deadline max_waits now ms waits n t h =
    elim (Bool-cases (leb max_waits (waits + 1))) [
      | inl e ↦
          rw e (record { iterations = h.iterations; verdicts = h.verdicts; discards = h.discards })
      | inr e ↦
          rw e (elim (Bool-cases (leb deadline (now + ms))) [ inl d ↦ rw d h | inr d ↦ rw d h ])
    ]

after_next-IsWithin :
    (deadline max_waits now ms waits n : ℕ) (next : Next) (t : Tally)
    → IsWithin n t
    → PassWithin n (after_next deadline max_waits now ms waits next t)
unfolding after_next
after_next-IsWithin deadline max_waits now ms waits n wait t h =
    waited-IsWithin deadline max_waits now ms waits n t h
after_next-IsWithin deadline max_waits now ms waits n _ t h = h

module _ (b : Builtins) where
  open b use {F}

  noted-IsWithin :
      (n : ℕ) (r : TickResult F) (t : Tally) → IsWithin n t → IsWithin (n + 1) (noted b r t)
  unfolding noted
  noted-IsWithin n r t h =
      counted-IsWithin r.outcome _
        (record { iterations = h.iterations; verdicts = h.verdicts; discards = h.discards })
    where
      counted-IsWithin :
          (o : Outcome) (u : Tally) → IsWithin n u → IsWithin (n + 1) (counted b o r u)
      counted-IsWithin iterated u g =
          IsWithin-counted (n + 1) r.verdict r.stat _ (ground (arith, g.iterations))
            (ground (arith, g.verdicts)) (ground (arith, g.discards))
      counted-IsWithin o u g = record {
        iterations = ground (arith, g.iterations);
        verdicts = g.verdicts;
        discards = g.discards;
      }

  pub pass_of-IsWithin :
      (deadline max_waits now waits n : ℕ) (r : Result (TickResult F)) (t : Tally)
      → IsWithin n t
      → PassWithin (n + 1) (pass_of b deadline max_waits now waits r t)
  unfolding pass_of
  pass_of-IsWithin deadline max_waits now waits n (ok r) t h =
      after_next-IsWithin deadline max_waits now _ waits (n + 1) _ _ (noted-IsWithin n r t h)
  pass_of-IsWithin deadline max_waits now waits n (err failure) t h = record {
    iterations = ground (arith, h.iterations);
    verdicts = h.verdicts;
    discards = h.discards;
  }
