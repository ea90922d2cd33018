-- ===== src/Rebalance/Guardrails.antt =====
-- services/rebalance.py: `_apply_guardrails`. A dictionary keeps the order in which Python inserts.
use research_orchestrator.Prelude.{
  ℕ, zero, suc, ◌+◌, String, Bool, true, false, [], ◌∷◌, ◌++◌, if◌then◌else◌, length, map,
}
use research_orchestrator.Prelude.Dict.{Dict, insert, merge}
use research_orchestrator.Numbers.{Numbers}

-- The variables of the loop; `breached` is of the pass that is under way.
pub record State (F : Type 0) : Type 0 where
  pub pinned : Dict F
  pub free : Dict F
  pub n_low : ℕ
  pub n_high : ℕ
  pub breached : Bool

pub record Guarded (F : Type 0) : Type 0 where
  pub weights : Dict F
  pub n_clamped_low : ℕ
  pub n_clamped_high : ℕ
  pub renorm_factor : F

module _ (n : Numbers) where
  open n use {F, lt, le, add, sub, mul, div, of_int, literal, round}

  abbrev pub min_weight : F
  min_weight = literal 5 2

  abbrev pub max_weight : F
  max_weight = literal 50 2

  -- MAX_WEIGHT + eps and MIN_WEIGHT - eps
  unfoldable pub upper_bound : F
  upper_bound = add max_weight (literal 1 12)

  unfoldable pub lower_bound : F
  lower_bound = sub min_weight (literal 1 12)

  unfoldable pub sum_weights : Dict F → F → F
  sum_weights [] total = total
  sum_weights ((code, w) ∷ d) total = sum_weights d (add total w)

  unfoldable pub pin : F → String → State F → State F
  pin bound code s = record s { pinned = insert code bound s.pinned; breached = true }

  unfoldable pub keep : String → F → State F → State F
  keep code w s = record s { free = s.free ++ ((code, w) ∷ []) }

  -- one weight of the inner loop
  unfoldable pub clamp : (factor : F) → String → F → State F → State F
  clamp factor code w s =
      let scaled = mul w factor in
      if lt upper_bound scaled
      then record (pin max_weight code s) { n_high = s.n_high + 1 }
      else if lt scaled lower_bound
      then record (pin min_weight code s) { n_low = s.n_low + 1 }
      else keep code w s

  -- the inner loop over `list(free.items())`; `free` is built again from what stays
  unfoldable pub clamp_all : (factor : F) → Dict F → State F → State F
  clamp_all factor [] s = s
  clamp_all factor ((code, w) ∷ d) s = clamp_all factor d (clamp factor code w s)

  unfoldable pub scaled_all : (factor : F) → Dict F → Dict F
  scaled_all factor d = map (λ e. (e.0, mul e.1 factor)) d

  -- everything is pinned, or the passes are used up
  unfoldable pub renormalised : State F → Guarded F
  renormalised s =
      let combined = merge s.pinned s.free in
      let total = sum_weights combined (of_int 0) in
      let factor = if lt (literal 0 0) total then div (literal 1 0) total else literal 1 0 in
      record {
        weights = scaled_all factor combined;
        n_clamped_low = s.n_low;
        n_clamped_high = s.n_high;
        renorm_factor = round factor 6;
      }

  -- for code in list(free): pinned[code] = MIN_WEIGHT
  unfoldable pub pin_rest : Dict F → State F → State F
  pin_rest [] s = record s { free = [] }
  pin_rest ((code, w) ∷ d) s =
      pin_rest d (record s { pinned = insert code min_weight s.pinned; n_low = s.n_low + 1 })

  unfoldable pub settled : (factor : F) → State F → Guarded F
  settled factor s = record {
    weights = merge s.pinned (scaled_all factor s.free);
    n_clamped_low = s.n_low;
    n_clamped_high = s.n_high;
    renorm_factor = round factor 6;
  }

  -- the end of a pass; `next` is what the further passes make of the state
  unfoldable pub after_pass : (factor : F) → State F → (next : Guarded F) → Guarded F
  after_pass factor s next = if s.breached then next else settled factor s

  unfoldable pub has_free : Dict F → Bool
  has_free [] = false
  has_free (e ∷ d) = true

  unfoldable pub factor_of : State F → F
  factor_of s =
      div (sub (literal 1 0) (sum_weights s.pinned (of_int 0))) (sum_weights s.free (of_int 0))

  unfoldable pub passed : State F → State F
  passed s = clamp_all (factor_of s) s.free (record s { free = []; breached = false })

  -- `for _ in range(len(raw_weights) + 1)`
  unfoldable pub passes : ℕ → State F → Guarded F
  passes zero s = renormalised s
  passes (suc left) s =
      let next = passes left (passed s) in
      let free_budget = sub (literal 1 0) (sum_weights s.pinned (of_int 0)) in
      let free_sum = sum_weights s.free (of_int 0) in
      if (if has_free s.free then le free_budget (literal 0 0) else true)
      then renormalised s
      else if le free_sum (literal 0 0)
      then renormalised (pin_rest s.free s)
      else after_pass (factor_of s) (passed s) next

  unfoldable pub apply_guardrails : Dict F → Guarded F
  apply_guardrails [] = record {
    weights = [];
    n_clamped_low = 0;
    n_clamped_high = 0;
    renorm_factor = literal 1 0;
  }
  apply_guardrails (e ∷ raw) =
      passes (length (e ∷ raw) + 1)
        (record { pinned = []; free = e ∷ raw; n_low = 0; n_high = 0; breached = false })
