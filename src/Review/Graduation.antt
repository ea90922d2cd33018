-- ===== src/Review/Graduation.antt =====
-- The checks of a graduation in services/review.py, without the prose of their findings.
use research_orchestrator.Prelude.{
  ℕ, ◌+◌, String, Bool, true, false, not, ◌&&◌, List, [], ◌∷◌, Option, none, some, if◌then◌else◌,
  any, leb, ltb, ◌==◌, str_eq, select,
}
use research_orchestrator.Prelude.Dict.{Dict, lookup}
use research_orchestrator.Numbers.{Numbers}
use research_orchestrator.Review.Checks.{Check, blocker, warning, escalate}
use research_orchestrator.Review.Plan.{check}

-- a JSON scalar: a number, or something that float() refuses
pub data Scalar (F : Type 0) : Type 0 where
  number : F → Scalar F
  other : Scalar F

pub record RegimeStats (F : Type 0) : Type 0 where
  pub n : Option ℕ
  pub pnl : Option F

-- The keys that the checks read, `none` where a key is missing or None. The map of the regimes
-- holds `none` for a value that is no dict.
pub record IterationMetrics (F : Type 0) : Type 0 where
  pub n_trades : Option ℕ
  pub pf_95_low : Option (Scalar F)
  pub dsr : Option (Scalar F)
  pub slippage_50bps : Option (Scalar F)
  pub by_trend_regime : Dict (Option (RegimeStats F))
  pub corr_applied : Bool
  pub per_code_corr : Dict (Option (Scalar F))

-- a cell of the sweep: the texts str(v) of its parameters, and its profit factor
pub record Cell (F : Type 0) : Type 0 where
  pub params : Dict String
  pub pf : F

unfoldable pub n_trades_ample : Option ℕ → Bool
n_trades_ample none = false
n_trades_ample (some n) = leb 100 n

unfoldable pub count_or_zero : Option ℕ → ℕ
count_or_zero none = 0
count_or_zero (some n) = n

-- str(params.get(k))
unfoldable pub text_at : String → Dict String → String
text_at k params = elim (lookup k params) [ none ↦ "None" | some v ↦ v ]

-- sum(1 for k in opt_params if ...)
unfoldable pub n_diffs : (keys opt_params params : Dict String) → ℕ
n_diffs [] opt_params params = 0
n_diffs ((k, v) ∷ keys) opt_params params =
    let rest = n_diffs keys opt_params params in
    if str_eq (text_at k params) (text_at k opt_params) then rest else rest + 1

module _ (n : Numbers) where
  open n use {F, lt, le, eq, sub, mul, literal}

  unfoldable pub holds_of : (F → Bool) → Option (Scalar F) → Bool
  holds_of p none = false
  holds_of p (some other) = false
  holds_of p (some (number x)) = p x

  -- n < 5: too few trades to conclude; else pnl is None or pnl <= 0
  unfoldable pub is_losing : Option (RegimeStats F) → Bool
  is_losing none = false
  is_losing (some s) =
      if ltb (count_or_zero s.n) 5
      then false
      else elim s.pnl [ none ↦ true | some pnl ↦ le pnl (literal 0 0) ]

  unfoldable pub regimes_hold : Dict (Option (RegimeStats F)) → Bool
  regimes_hold [] = false
  regimes_hold (e ∷ d) = not (any (λ r. is_losing r.1) (e ∷ d))

  -- the usable correlations
  unfoldable pub numbers_of : Dict (Option (Scalar F)) → List F
  numbers_of [] = []
  numbers_of ((code, none) ∷ d) = numbers_of d
  numbers_of ((code, some other) ∷ d) = numbers_of d
  numbers_of ((code, some (number x)) ∷ d) = x ∷ numbers_of d

  -- max(xs, default=0.0): `best` is the greatest so far
  unfoldable pub max_from : F → List F → F
  max_from best [] = best
  max_from best (x ∷ xs) = max_from (if lt best x then x else best) xs

  unfoldable pub max_or_zero : List F → F
  max_or_zero [] = literal 0 0
  max_or_zero (x ∷ xs) = max_from x xs

  unfoldable pub fits_signed : List F → Bool
  fits_signed [] = true
  fits_signed (x ∷ xs) = lt (max_or_zero (select (λ v. lt (literal 0 0) v) (x ∷ xs))) (literal 50 2)

  unfoldable pub portfolio_fits : IterationMetrics F → Bool
  portfolio_fits it = if it.corr_applied then fits_signed (numbers_of it.per_code_corr) else true

  unfoldable pub best_pf : F → List (Cell F) → F
  best_pf best [] = best
  best_pf best (c ∷ cells) = best_pf (if lt best c.pf then c.pf else best) cells

  -- the first cell with the best profit factor
  unfoldable pub optimum : F → List (Cell F) → Option (Cell F)
  optimum best [] = none
  optimum best (c ∷ cells) = if eq c.pf best then some c else optimum best cells

  -- a Hamming-1 neighbour whose profit factor is within the tolerance
  unfoldable pub is_near : (opt_pf : F) → Cell F → Cell F → Bool
  is_near opt_pf opt c =
      (n_diffs opt.params opt.params c.params == 1)
      && le (mul opt_pf (sub (literal 1 0) (literal 30 2))) c.pf

  unfoldable pub near_optimum : (opt_pf : F) → Option (Cell F) → List (Cell F) → Bool
  near_optimum opt_pf none cells = false
  near_optimum opt_pf (some opt) cells = any (is_near opt_pf opt) cells

  unfoldable pub is_plateau : List (Cell F) → Bool
  is_plateau [] = false
  is_plateau (c ∷ cells) =
      let opt_pf = best_pf c.pf cells in
      near_optimum opt_pf (optimum opt_pf (c ∷ cells)) (c ∷ cells)

  unfoldable pub check_n_trades_ample : IterationMetrics F → Check
  check_n_trades_ample it = check "n_trades_ample" blocker (n_trades_ample it.n_trades)

  unfoldable pub check_pf_ci_lower_bound : IterationMetrics F → Check
  check_pf_ci_lower_bound it =
      check "pf_ci_lower_bound" blocker (holds_of (λ x. lt (literal 1 0) x) it.pf_95_low)

  unfoldable pub check_dsr_threshold : IterationMetrics F → Check
  check_dsr_threshold it =
      check "dsr_threshold" blocker (holds_of (λ x. le (literal 90 2) x) it.dsr)

  unfoldable pub check_cost_realism : IterationMetrics F → Check
  check_cost_realism it =
      check "cost_realism" warning (holds_of (λ x. lt (literal 0 0) x) it.slippage_50bps)

  unfoldable pub check_regime_concentration : IterationMetrics F → Check
  check_regime_concentration it =
      check "regime_concentration" warning (regimes_hold it.by_trend_regime)

  unfoldable pub check_portfolio_fit : IterationMetrics F → Check
  check_portfolio_fit it = check "portfolio_fit" warning (portfolio_fits it)

  unfoldable pub check_param_robustness : List (Cell F) → Check
  check_param_robustness sweep_history = check "param_robustness" warning (is_plateau sweep_history)

  unfoldable pub graduation_review_checklist :
      IterationMetrics F → (sweep_history : List (Cell F)) → (track : Option String) → List Check
  graduation_review_checklist it sweep_history track = escalate track (
      check_n_trades_ample it
      ∷ check_pf_ci_lower_bound it
      ∷ check_dsr_threshold it
      ∷ check_cost_realism it
      ∷ check_regime_concentration it
      ∷ check_portfolio_fit it
      ∷ check_param_robustness sweep_history
      ∷ [])
