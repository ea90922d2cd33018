-- ===== src/Roster.antt =====
-- services/provisional_roster.py: which near-miss strategies fill the empty slots of the live
-- roster. A candidate row is a record of the keys the code reads, `none` where the key is missing
-- or None.
pub mod Selection
pub mod Ranking
mod Tests
use research_orchestrator.Prelude.{
  ℕ, ◌-◌, String, Bool, true, false, List, [], ◌∷◌, ◌++◌, Option, none, some, ◌||◌, if◌then◌else◌,
  any, length, leb, str_eq,
}
use research_orchestrator.Prelude.Sorting.{then_by, sort_descending}
use research_orchestrator.Numbers.{Numbers}

-- MIN_ACTIVE_TRADING_STRATEGIES
abbrev pub min_active_trading_strategies : ℕ
min_active_trading_strategies = 5

-- ELIGIBLE_STAT_VERDICT
abbrev pub eligible_stat_verdict : String
eligible_stat_verdict = "SIGNIFICANT_EDGE"

pub record Candidate (F : Type 0) : Type 0 where
  pub strategy_code : Option String
  pub track : Option String
  pub statistical_verdict : Option String
  pub ann_return_pct : Option F
  pub walk_forward_verdict : Option String
  pub dsr : Option F
  pub fold_positive_pct : Option F
  pub param_robust : Option Bool

-- a candidate with the two keys that the ranking adds
pub record Ranked (F : Type 0) : Type 0 where
  pub candidate : Candidate F
  pub overfit_quality : F
  pub provisional_score : F

-- track is not None and track != "trading"
unfoldable pub other_track : Option String → Bool
other_track none = false
other_track (some t) = if str_eq t "trading" then false else true

unfoldable pub has_edge : Option String → Bool
has_edge none = false
has_edge (some v) = str_eq v eligible_stat_verdict

-- verdict in _DISQUALIFYING_WF_VERDICTS
unfoldable pub disqualified : Option String → Bool
disqualified none = false
disqualified (some v) = str_eq v "OVERFIT" || str_eq v "NO_EDGE"

-- r.get("strategy_code") or ""
unfoldable pub code_of : Option String → String
code_of none = ""
code_of (some s) = s

-- code in codes
unfoldable pub mem : String → List String → Bool
mem code codes = any (λ c. str_eq c code) codes

-- max(0, floor − active_count)
unfoldable pub roster_gap : (active floor : ℕ) → ℕ
roster_gap active floor = floor - active

module _ (n : Numbers) where
  open n use {F, lt, le, eq, mul, div, pow, negate, of_int, literal, round, str_lt}

  unfoldable pub clamp01 : F → F
  clamp01 x =
      if lt x (literal 0 0) then literal 0 0 else if lt (literal 1 0) x then literal 1 0 else x

  -- the three sub-scores, each a list of at most one
  unfoldable pub sub_dsr : Option F → List F
  sub_dsr none = []
  sub_dsr (some d) = clamp01 d ∷ []

  unfoldable pub sub_folds : Option F → List F
  sub_folds none = []
  sub_folds (some p) = clamp01 (div p (literal 100 0)) ∷ []

  unfoldable pub sub_robust : Option Bool → List F
  sub_robust none = []
  sub_robust (some true) = literal 1 0 ∷ []
  sub_robust (some false) = literal 3 1 ∷ []

  -- prod *= max(s, 1e-9) over the sub-scores
  unfoldable pub product_from : F → List F → F
  product_from prod [] = prod
  product_from prod (s ∷ subs) =
      product_from (mul prod (if lt s (literal 1 9) then literal 1 9 else s)) subs

  unfoldable pub geometric_mean : List F → F
  geometric_mean [] = literal 0 0
  geometric_mean (s ∷ subs) =
      pow (product_from (literal 1 0) (s ∷ subs)) (div (literal 1 0) (of_int (length (s ∷ subs))))

  unfoldable pub overfit_quality_of : Option F → Option F → Option Bool → F
  overfit_quality_of dsr fold_positive_pct param_robust =
      geometric_mean (sub_dsr dsr ++ sub_folds fold_positive_pct ++ sub_robust param_robust)

  unfoldable pub composite_score : Option F → F → F
  composite_score none quality = literal 0 0
  composite_score (some ann) quality = if le ann (literal 0 0) then literal 0 0 else mul ann quality

  -- ann is not None and not float(ann) <= 0.0
  unfoldable pub earns : Option F → Bool
  earns none = false
  earns (some ann) = if le ann (literal 0 0) then false else true

  unfoldable pub is_eligible : Candidate F → Bool
  is_eligible c =
      if other_track c.track
      then false
      else if has_edge c.statistical_verdict
      then (if earns c.ann_return_pct
          then (if disqualified c.walk_forward_verdict then false else true)
          else false)
      else false

  unfoldable pub annotated : Candidate F → Ranked F
  annotated c =
      let quality = overfit_quality_of c.dsr c.fold_positive_pct c.param_robust in
      record {
        candidate = c;
        overfit_quality = round quality 6;
        provisional_score = round (composite_score c.ann_return_pct quality) 6;
      }

  -- the loop over the candidates
  unfoldable pub annotated_all : List (Candidate F) → List (Ranked F)
  annotated_all [] = []
  annotated_all (c ∷ cs) =
      let rest = annotated_all cs in if is_eligible c then annotated c ∷ rest else rest

  -- _dsr_sort
  unfoldable pub dsr_sort : Option F → F
  dsr_sort none = negate (literal 1 0)
  dsr_sort (some d) = d

  -- the order of the sort keys (provisional_score, _dsr_sort, strategy_code)
  unfoldable pub worse : Ranked F → Ranked F → Bool
  worse =
      then_by (λ r s. lt r.provisional_score s.provisional_score)
        (λ r s. eq r.provisional_score s.provisional_score)
        (then_by (λ r s. lt (dsr_sort r.candidate.dsr) (dsr_sort s.candidate.dsr))
          (λ r s. eq (dsr_sort r.candidate.dsr) (dsr_sort s.candidate.dsr))
          (λ r s. str_lt (code_of r.candidate.strategy_code) (code_of s.candidate.strategy_code)))

  unfoldable pub rank_provisional_candidates : List (Candidate F) → List (Ranked F)
  rank_provisional_candidates candidates = sort_descending worse (annotated_all candidates)

-- The loop of `select_roster_fill`: `picks` and `seen` are its variables. A pick is the ranked
-- candidate; that each gets `provisional` true is the same for all of them.
module _ {F : Type 0} where
  abbrev pub code : Ranked F → String
  code r = code_of r.candidate.strategy_code

  unfoldable pub fill :
      (gap : ℕ) (excl : List String)
      → List (Ranked F)
      → (picks : List (Ranked F)) → (seen : List String) → List (Ranked F)
  fill gap excl [] picks seen = picks
  fill gap excl (c ∷ rest) picks seen = elim (mem (code c) excl || mem (code c) seen) [
    | true ↦ fill gap excl rest picks seen
    | false ↦
        let grown = picks ++ (c ∷ []) in
        elim (leb gap (length grown)) [
          | true ↦ grown
          | false ↦ fill gap excl rest grown (code c ∷ seen)
        ]
  ]

module _ (n : Numbers) where
  open n use {F}

  unfoldable pub select_roster_fill :
      (active : ℕ) (candidates : List (Candidate F)) (floor : ℕ) (excl : List String)
      → List (Ranked F)
  select_roster_fill active candidates floor excl =
      let gap = roster_gap active floor in
      if leb gap 0 then [] else fill gap excl (rank_provisional_candidates n candidates) [] []
