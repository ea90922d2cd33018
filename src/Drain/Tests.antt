-- ===== src/Drain/Tests.antt =====
-- A drain of the sample queue, and the theorems at this input.
use research_orchestrator.Prelude.{ℕ, refl, none, []}
use research_orchestrator.Analyze.Tests.{micro}
use research_orchestrator.Sweep.{is_tpe, derive_combo}
use research_orchestrator.Queue.Invariant.{run, apply}
use research_orchestrator.Tick.{
  Env, run_tick, resolve_account_strategy, find_iteration_for_run, to_resume, execute_after_claim,
  alive, decide_next_state,
}
use research_orchestrator.Tick.Samples.{env, world, statements}
use research_orchestrator.Drain.{Drained, drain_ticks}
use research_orchestrator.Drain.Tallies.{IsWithin}
use research_orchestrator.Drain.Bounds.{drain_ticks-IsWithin}
use research_orchestrator.Drain.Graduation.{IsGraduated, drain_ticks-IsGraduated}

abbrev envs : ℕ → Env ℕ
envs i = env

-- Three ticks at most, over three hours, on one row that waits.
abbrev sample : Drained micro
sample = drain_ticks micro envs (λ i. i) (λ i. i) 3 10800 3 0 (world none [])

drain_ticks-IsWithin_example : IsWithin 3 sample.1
drain_ticks-IsWithin_example =
    drain_ticks-IsWithin micro envs (λ i. i) (λ i. i) 3 10800 3 0 (world none [])

drain_ticks-IsGraduated_example : IsGraduated micro envs sample
unfolding drain_ticks statements run_tick is_tpe derive_combo resolve_account_strategy run apply
    find_iteration_for_run to_resume execute_after_claim alive decide_next_state
drain_ticks-IsGraduated_example =
    drain_ticks-IsGraduated micro envs (λ i. i) (λ i. i) 3 10800 3 0 (world none []) refl
