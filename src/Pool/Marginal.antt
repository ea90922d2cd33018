-- ===== src/Pool/Marginal.antt =====
-- services/pool.py: daily return series, and the Sharpe ratio of a pool with and without a
-- candidate. A day is its ordinal number; a series is the list of its days with their returns.
use research_orchestrator.Prelude.{
  ℕ, zero, suc, ◌+◌, ◌-◌, min, max, List, [], ◌∷◌, Option, none, some, if◌then◌else◌, ltb, leb,
  ◌==◌, length, map, select, is_some,
}
use research_orchestrator.Prelude.Dict.{Dict, lookup, insert}
use research_orchestrator.Numbers.{Numbers}

abbrev pub Series : Type 0 → Type 0
Series F = List (ℕ × F)

-- (start, end)
abbrev pub Window : Type 0
Window = ℕ × ℕ

-- _MIN_OBS
abbrev pub min_obs : ℕ
min_obs = 5

-- How a book of two and more series is weighed: the code computes it with numpy.
abbrev pub Weigher : Type 0 → Type 0
Weigher F = Dict (Series F) → Dict F

unfoldable pub both : Option Window → Option Window → Option Window
both none w = w
both (some v) none = some v
both (some v) (some w) = some (max v.0 w.0, min v.1 w.1)

unfoldable pub if_ordered : Option Window → Option Window
if_ordered none = none
if_ordered (some w) = if leb w.0 w.1 then some w else none

module _ {F : Type 0} where
  -- series.get(d)
  unfoldable pub at_day : ℕ → Series F → Option F
  at_day d [] = none
  at_day d ((e, r) ∷ s) = if e == d then some r else at_day d s

  -- max(s) and min(s) of the days
  unfoldable pub last_of : ℕ → Series F → ℕ
  last_of d [] = d
  last_of d ((e, r) ∷ s) = last_of (max d e) s

  unfoldable pub first_of : ℕ → Series F → ℕ
  first_of d [] = d
  first_of d ((e, r) ∷ s) = first_of (min d e) s

  unfoldable pub span : Series F → Option Window
  span [] = none
  span ((e, r) ∷ s) = some (first_of e s, last_of e s)

  -- the latest start and the earliest end of the series that are not empty
  unfoldable pub spans : List (Series F) → Option Window
  spans [] = none
  spans (s ∷ ss) = both (span s) (spans ss)

  unfoldable pub common_window : List (Series F) → Option Window
  common_window series_list = if_ordered (spans series_list)

  -- len(a & b) of the days of two series
  unfoldable pub n_common : Series F → Series F → ℕ
  n_common a b = length (select (λ e. is_some (at_day e.0 b)) a)

  unfoldable pub greatest_overlap : Series F → List (Series F) → ℕ → ℕ
  greatest_overlap s [] n = n
  greatest_overlap s (m ∷ ms) n = greatest_overlap s ms (max n (n_common s m))

module _ (n : Numbers) where
  open n use {F, add, sub, mul, div, eq, sqrt, of_int, literal, round}

  unfoldable pub or_flat : Option F → F
  or_flat none = literal 0 0
  or_flat (some r) = r

  -- `while d <= end`, with `left` days left
  unfoldable pub fill_from : Series F → (d left : ℕ) → List F
  fill_from s d zero = []
  fill_from s d (suc left) = or_flat (at_day d s) ∷ fill_from s (d + 1) left

  unfoldable pub calendar_fill : Series F → (start end : ℕ) → List F
  calendar_fill s start end = fill_from s start (end + 1 - start)

  unfoldable pub sum : List F → F → F
  sum [] total = total
  sum (v ∷ vs) total = sum vs (add total v)

  unfoldable pub sharpe_of : List F → F
  sharpe_of vals =
      let n = of_int (length vals) in
      let mean = div (sum vals (of_int 0)) n in
      let squares = map (λ v. mul (sub v mean) (sub v mean)) vals in
      let sd = sqrt (div (sum squares (of_int 0)) (sub n (literal 1 0))) in
      if ltb (length vals) 2
      then literal 0 0
      else if eq sd (literal 0 0)
      then literal 0 0
      else mul (div mean sd) (sqrt (of_int 365))

  unfoldable pub sharpe_within : Series F → Option Window → F
  sharpe_within s none = literal 0 0
  sharpe_within s (some w) = sharpe_of (calendar_fill s w.0 w.1)

  unfoldable pub annualised_sharpe : Series F → F
  annualised_sharpe s = if ltb (length s) min_obs then literal 0 0 else sharpe_within s (span s)

  -- tot += w * s.get(d, 0.0) over the weights
  unfoldable pub term : F → ℕ → F → Option (Series F) → F
  term w d tot none = tot
  term w d tot (some []) = tot
  term w d tot (some (e ∷ s)) = add tot (mul w (or_flat (at_day d (e ∷ s))))

  unfoldable pub total_on : ℕ → Dict (Series F) → Dict F → F → F
  total_on d series [] tot = tot
  total_on d series ((code, w) ∷ ws) tot = total_on d series ws (term w d tot (lookup code series))

  unfoldable pub combined_from : Dict F → Dict (Series F) → (d left : ℕ) → Series F
  combined_from weights series d zero = []
  combined_from weights series d (suc left) =
      (d, total_on d series weights (literal 0 0)) ∷ combined_from weights series (d + 1) left

  unfoldable pub combined_series : Dict F → Dict (Series F) → Window → Series F
  combined_series weights series w = combined_from weights series w.0 (w.1 + 1 - w.0)

pub data Reason : Type 0 where
  standalone insufficient_overlap measured : Reason

pub record Contribution (F : Type 0) : Type 0 where
  pub marginal : F
  pub sharpe_before : F
  pub sharpe_after : F
  pub n_overlap : ℕ
  pub reason : Reason

module _ (n : Numbers) (hrp : Weigher n.F) where
  open n use {F, sub, literal, round}

  -- `_result`
  unfoldable pub result : (marginal before after : F) → ℕ → Reason → Contribution F
  result marginal before after n_overlap reason = record {
    marginal = round marginal 6;
    sharpe_before = round before 6;
    sharpe_after = round after 6;
    n_overlap = n_overlap;
    reason = reason;
  }

  unfoldable pub hrp_for : Dict (Series F) → Dict F
  hrp_for [] = []
  hrp_for ((code, s) ∷ []) = (code, literal 1 0) ∷ []
  hrp_for (a ∷ b ∷ rest) = hrp (a ∷ b ∷ rest)

  unfoldable pub within :
      Dict (Series F) → (after : Dict (Series F)) → ℕ → Option Window → Contribution F
  within members after n_overlap none =
      result (literal 0 0) (literal 0 0) (literal 0 0) n_overlap insufficient_overlap
  within members after n_overlap (some w) =
      let sharpe_before = annualised_sharpe n (combined_series n (hrp_for members) members w) in
      let sharpe_after = annualised_sharpe n (combined_series n (hrp_for after) after w) in
      if ltb n_overlap min_obs
      then result (literal 0 0) (literal 0 0) (literal 0 0) n_overlap insufficient_overlap
      else result (sub sharpe_after sharpe_before) sharpe_before sharpe_after n_overlap measured

  unfoldable pub marginal_sharpe_contribution : Series F → Dict (Series F) → Contribution F
  marginal_sharpe_contribution candidate [] =
      let sa = annualised_sharpe n candidate in result sa (literal 0 0) sa 0 standalone
  marginal_sharpe_contribution candidate (m ∷ ms) =
      let members = m ∷ ms in
      let after = insert "__candidate__" candidate members in
      within members after (greatest_overlap candidate (map (λ e. e.1) members) 0)
        (common_window (map (λ e. e.1) after))
