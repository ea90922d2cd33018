-- ===== src/Tick/Summaries.antt =====
-- The branch that the runner takes, as a function of the outcome, the decision and the retry hint.
use research_orchestrator.Prelude.{
  ℕ, String, ◌≡◌, refl, Bool, true, false, Option, some, List, arith,
}
use research_orchestrator.Builtins.{Builtins}
use research_orchestrator.Verdict.{StatVerdict, significant_edge, Decision, pass, discard}
use research_orchestrator.Tick.{
  Action, Outcome, iterated, empty_queue, sweep_exhausted, other_outcome, Next, go_on, graduate,
  pivot, queue_empty, wait, infra_fail, retry_hint, compute_tick_summary, by_stat,
}

-- The runner's table: only a PASS graduates, an exhausted sweep and a DISCARD pivot, and an outcome
-- that the tick does not name waits or fails by its retry hint.
abbrev pub branch : Outcome → Option Decision → Bool → Next
branch empty_queue d hint = queue_empty
branch sweep_exhausted d hint = pivot
branch (other_outcome o) d true = wait
branch (other_outcome o) d false = infra_fail
branch iterated (some pass) hint = graduate
branch iterated (some discard) hint = pivot
branch iterated d hint = go_on

module _ (b : Builtins) where
  open b use {F}

  by_stat-go_on :
      (stat : Option StatVerdict) (d : Option Decision) (m : String)
      → (by_stat b stat d m).next_action ≡ go_on
  unfolding by_stat
  by_stat-go_on (some significant_edge) d m = refl
  by_stat-go_on _ d m = refl

  -- The statistical verdict and the metrics change the text of a summary and never its branch: that
  -- is the runner's table at the outcome, the decision and the retry hint.
  pub next_action-branch :
      (outcome : Outcome) (stat : Option StatVerdict) (d : Option Decision) (actions : List Action)
      (pf : Option F) (n : Option ℕ)
      → (compute_tick_summary b outcome stat d actions pf n).next_action
        ≡ branch outcome d (retry_hint actions)
  unfolding compute_tick_summary
  next_action-branch empty_queue stat d actions pf n = refl
  next_action-branch sweep_exhausted stat d actions pf n = refl
  next_action-branch (other_outcome o) stat d actions pf n = ground arith
  next_action-branch iterated stat (some pass) actions pf n = refl
  next_action-branch iterated stat (some discard) actions pf n = refl
  next_action-branch iterated stat _ actions pf n = by_stat-go_on stat _ _
