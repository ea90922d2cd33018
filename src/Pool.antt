-- ===== src/Pool.antt =====
-- services/pool.py: who joins the signal pool, and who leaves it.
pub mod Marginal
pub mod Worst
pub mod Evictions
pub mod Admitting
mod Tests
use research_orchestrator.Prelude.{
  ℕ, zero, suc, String, Bool, true, false, not, ◌&&◌, List, [], ◌∷◌, Option, none, some,
  if◌then◌else◌, ltb, length, select, str_eq,
}
use research_orchestrator.Prelude.Dict.{Dict}
use research_orchestrator.Numbers.{Numbers}
use research_orchestrator.Pool.Marginal.{
  Series, Weigher, Contribution, Reason, insufficient_overlap, standalone, measured, min_obs,
  marginal_sharpe_contribution,
}

-- the candidate, as `_candidate_context` reads it
pub record Context (F : Type 0) : Type 0 where
  pub statistical_verdict : String
  pub dsr : Option F

pub data Refusal : Type 0 where
  iteration_not_found not_significant_edge dsr_below_threshold walk_forward_not_robust
        insufficient_return_history marginal_below_theta :
      Refusal

pub data Admission (F : Type 0) : Type 0 where
  admitted : Contribution F → Admission F
  refused : Refusal → Admission F

-- {kk: ss for kk, ss in d.items() if kk != k}, and what `del d[k]` leaves
unfoldable pub without {ℓ} : {V : Type ℓ} → String → Dict V → Dict V
without k d = select (λ e. not (str_eq e.0 k)) d

unfoldable pub is_unmeasurable : Reason → Bool
is_unmeasurable insufficient_overlap = true
is_unmeasurable standalone = false
is_unmeasurable measured = false

module _ (n : Numbers) (hrp : Weigher n.F) where
  open n use {F, lt, le, literal}

  -- dsr is None or dsr < DSR_THRESHOLD
  unfoldable pub below_threshold : Option F → Bool
  below_threshold none = true
  below_threshold (some d) = lt d (literal 90 2)

  unfoldable pub by_margin : (theta : F) → Contribution F → Admission F
  by_margin theta c = if lt theta c.marginal then admitted c else refused marginal_below_theta

  -- `evaluate_admission` on what it reads: the candidate, whether a walk-forward of it is ROBUST,
  -- its returns, and those of the active members but itself
  unfoldable pub evaluate_admission :
      (theta : F) (ctx : Option (Context F)) (robust : Bool) (returns : Series F)
      (members : Dict (Series F))
      → Admission F
  evaluate_admission theta none robust returns members = refused iteration_not_found
  evaluate_admission theta (some ctx) robust returns members =
      if not (str_eq ctx.statistical_verdict "SIGNIFICANT_EDGE")
      then refused not_significant_edge
      else if below_threshold ctx.dsr
      then refused dsr_below_threshold
      else if not robust
      then refused walk_forward_not_robust
      else if ltb (length returns) min_obs
      then refused insufficient_return_history
      else by_margin theta (marginal_sharpe_contribution n hrp returns members)

  -- the contribution of a member against the others of `remaining`
  unfoldable pub contribution_of : Dict (Series F) → String × Series F → Contribution F
  contribution_of remaining e = marginal_sharpe_contribution n hrp e.1 (without e.0 remaining)

  -- m <= evict_theta, and not unmeasurable
  unfoldable pub redundant : (theta : F) → Contribution F → Bool
  redundant theta c = not (is_unmeasurable c.reason) && le c.marginal theta

  -- worst_marg is None or m < worst_marg
  unfoldable pub is_lower : F → Option (String × F) → Bool
  is_lower m none = true
  is_lower m (some w) = lt m w.1

  unfoldable pub considered :
      (theta : F) → String → Contribution F → Option (String × F) → Option (String × F)
  considered theta k c worst =
      if redundant theta c && is_lower c.marginal worst then some (k, c.marginal) else worst

  -- the inner loop: `worst` is (worst_key, worst_marg)
  unfoldable pub worst_of :
      (theta : F) (remaining : Dict (Series F))
      → Dict (Series F)
      → Option (String × F)
      → Option (String × F)
  worst_of theta remaining [] worst = worst
  worst_of theta remaining (e ∷ es) worst =
      worst_of theta remaining es (considered theta e.0 (contribution_of remaining e) worst)

  -- the outer loop, on fuel
  unfoldable pub evictions : (theta : F) → ℕ → Dict (Series F) → List (String × F)
  evictions theta zero remaining = []
  evictions theta (suc fuel) remaining =
      if ltb 1 (length remaining)
      then elim (worst_of theta remaining remaining none) [
        | none ↦ []
        | some w ↦ w ∷ evictions theta fuel (without w.0 remaining)
      ]
      else []

  unfoldable pub greedy_evictions : Dict (Series F) → (theta : F) → List (String × F)
  greedy_evictions series_by_key theta = evictions theta (length series_by_key) series_by_key
