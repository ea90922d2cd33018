-- ===== src/Capacity.antt =====
-- services/capacity.py: the verdict on a capacity sweep, the largest capital that it calls viable,
-- and the provisional verdict of the judge on them. A scale is a run of the sweep at one capital.
pub mod Judged
mod Tests
use research_orchestrator.Prelude.{
  Bool, true, false, List, [], ◌∷◌, Option, none, some, if◌then◌else◌, ◌&&◌, ◌||◌,
}
use research_orchestrator.Prelude.Sorting.{sort_descending}
use research_orchestrator.Numbers.{Numbers}

-- an entry of `per_scale`: its metrics are absent where the run failed
pub record Metrics (F : Type 0) : Type 0 where
  pub pf : Option F
  pub ann_geom_pct : Option F

pub record Scale (F : Type 0) : Type 0 where
  pub scale_usd : F
  pub metrics : Option (Metrics F)

-- a scale that has a profit factor
pub record Point (F : Type 0) : Type 0 where
  pub capital : F
  pub pf : F

pub data EdgeDecayVerdict : Type 0 where
  insufficient_data inverted linear_scalable gradual_decay sharp_cliff : EdgeDecayVerdict

pub data Judgement : Type 0 where
  proceed concern reject : Judgement

-- (noise_floor, gentle_pct, gradual_pct)
pub record Thresholds (F : Type 0) : Type 0 where
  pub noise_floor : F
  pub gentle_pct : F
  pub gradual_pct : F

-- the variables of the loop over the scales
pub record Scan (F : Type 0) : Type 0 where
  pub max_viable : Option F
  pub max_decay_pct : F
  pub viable_run_intact : Bool

module _ {F : Type 0} where
  unfoldable pub with_pf : F → Option F → List (Point F) → List (Point F)
  with_pf c none points = points
  with_pf c (some p) points = record { capital = c; pf = p } ∷ points

  unfoldable pub with_run : F → Option (Metrics F) → List (Point F) → List (Point F)
  with_run c none points = points
  with_run c (some m) points = with_pf c m.pf points

  -- the scales with metrics that have a profit factor
  unfoldable pub measured : List (Scale F) → List (Point F)
  measured [] = []
  measured (s ∷ scales) = with_run s.scale_usd s.metrics (measured scales)

-- verdict in ("SHARP_CLIFF", "INVERTED")
unfoldable pub is_cliff : EdgeDecayVerdict → Bool
is_cliff sharp_cliff = true
is_cliff inverted = true
is_cliff insufficient_data = false
is_cliff linear_scalable = false
is_cliff gradual_decay = false

module _ (n : Numbers) where
  open n use {F, lt, le, literal, sub, mul, div, of_int}

  -- PF_NOISE_FLOOR, DEGRADATION_PCT_GENTLE, DEGRADATION_PCT_GRADUAL
  unfoldable pub defaults : Thresholds F
  defaults = record {
    noise_floor = literal 12 1;
    gentle_pct = literal 200 1;
    gradual_pct = literal 400 1;
  }

  -- `valid`: by capital, the smallest first
  unfoldable pub valid : List (Scale F) → List (Point F)
  valid scales = sort_descending (λ a b. lt b.capital a.capital) (measured scales)

  -- ((base_pf - pf) / base_pf) * 100.0
  unfoldable pub decay_pct : (base_pf pf : F) → F
  decay_pct base_pf p = mul (div (sub base_pf p) base_pf) (literal 1000 1)

  -- max(a, b)
  unfoldable pub greater : F → F → F
  greater a b = if lt a b then b else a

  module _ (t : Thresholds F) where
    unfoldable pub scan_start : Point F → Scan F
    scan_start base =
        let viable = le t.noise_floor base.pf in
        record {
          max_viable = if viable then some base.capital else none;
          max_decay_pct = literal 0 1;
          viable_run_intact = viable;
        }

    unfoldable pub scan_step : (base_pf : F) → Point F → Scan F → Scan F
    scan_step base_pf s st =
        let viable = le t.noise_floor s.pf && st.viable_run_intact in
        record {
          max_viable = if viable then some s.capital else st.max_viable;
          max_decay_pct = greater st.max_decay_pct (decay_pct base_pf s.pf);
          viable_run_intact = viable;
        }

    unfoldable pub scan : (base_pf : F) → List (Point F) → Scan F → Scan F
    scan base_pf [] st = st
    scan base_pf (s ∷ rest) st = scan base_pf rest (scan_step base_pf s st)

    unfoldable pub by_decay : F → EdgeDecayVerdict
    by_decay max_decay =
        if lt max_decay t.gentle_pct
        then linear_scalable
        else if lt max_decay t.gradual_pct
        then gradual_decay
        else sharp_cliff

    unfoldable pub classify_points : List (Point F) → EdgeDecayVerdict × Option F
    classify_points [] = (insufficient_data, none)
    classify_points (base ∷ []) = (insufficient_data, none)
    classify_points (base ∷ s ∷ rest) =
        let end = scan base.pf (s ∷ rest) (scan_start base) in
        if lt base.pf (literal 10 1)
        then (inverted, none)
        else (by_decay end.max_decay_pct, end.max_viable)

    -- `_classify_verdict`
    unfoldable pub classify_verdict : List (Scale F) → EdgeDecayVerdict × Option F
    classify_verdict scales = classify_points (valid scales)

  -- floor is not None and max_viable < floor * k
  unfoldable pub is_below : F → Option F → Bool
  is_below m none = false
  is_below m (some bound) = lt m bound

  unfoldable pub five_times : Option F → Option F
  five_times none = none
  five_times (some floor) = some (mul floor (of_int 5))

  -- `_provisional_judge_verdict`
  unfoldable pub provisional_judge_verdict :
      EdgeDecayVerdict → (max_viable floor : Option F) → Judgement
  provisional_judge_verdict verdict none floor = reject
  provisional_judge_verdict verdict (some m) floor =
      if is_below m floor
      then reject
      else if is_cliff verdict || is_below m (five_times floor)
      then concern
      else proceed

  -- the end of `run_capacity_sweep`: the verdict on the scales, then the judge's
  unfoldable pub judge_sweep : List (Scale F) → (floor : Option F) → Judgement
  judge_sweep scales floor =
      let verdict = classify_verdict defaults scales in
      provisional_judge_verdict verdict.0 verdict.1 floor
