-- ===== src/Sweep/Overrides.antt =====
-- `split_ml_overrides` and `build_ml_override_maps` of services/sweep.py.
use research_orchestrator.Prelude.{
  String, str_eq, Bool, false, not, ◌||◌, Option, none, some, [], ◌∷◌, ltb, if◌then◌else◌,
}
use research_orchestrator.Prelude.Dict.{Dict, lookup, insert}
use research_orchestrator.Sweep.Config.{Value, null, bool, number, text}

abbrev pub ml_sentinel_gate_enabled : String
ml_sentinel_gate_enabled = "_ml_gate_enabled"

abbrev pub ml_sentinel_signal_name : String
ml_sentinel_signal_name = "_ml_signal_name"

abbrev pub ml_sentinel_shadow_mode : String
ml_sentinel_shadow_mode = "_ml_shadow_mode"

-- `k in ML_SENTINELS`
unfoldable pub is_ml_sentinel : String → Bool
is_ml_sentinel k =
    str_eq k ml_sentinel_gate_enabled
    || str_eq k ml_sentinel_signal_name
    || str_eq k ml_sentinel_shadow_mode

-- The loop of `split_ml_overrides`: the regular parameters and the ML overrides so far.
unfoldable pub split_onto : (regular ml : Dict Value) → Dict Value → Dict Value × Dict Value
split_onto regular ml [] = (regular, ml)
split_onto regular ml ((k, v) ∷ combo) =
    let sentinel = is_ml_sentinel k in
    split_onto (if sentinel then regular else insert k v regular)
      (if sentinel then insert k v ml else ml) combo

unfoldable pub split_ml_overrides : Dict Value → Dict Value × Dict Value
unfolding split_onto
split_ml_overrides combo = split_onto [] [] combo

-- Python's bool()
unfoldable pub truthy : Value → Bool
truthy null = false
truthy (bool b) = b
truthy (number negative mantissa exponent) = ltb 0 mantissa
truthy (text s) = not (str_eq s "")

-- `d.get(k)` where a value None counts as absent
unfoldable pub get_set : String → Dict Value → Option Value
unfolding lookup
get_set k d = elim (lookup k d) [
  | none ↦ none
  | some v ↦ elim v [ null ↦ none | other ↦ some other ]
]

module _ (to_str : Value → String) where
  unfoldable pub with_map :
      (field strategy_code : String) → Option Value → Dict (Dict Value) → Dict (Dict Value)
  unfolding insert
  with_map field strategy_code none out = out
  with_map field strategy_code (some v) out = insert field ((strategy_code, v) ∷ []) out

  abbrev pub on_value : (Value → Value) → Option Value → Option Value
  on_value f none = none
  on_value f (some v) = some (f v)

  -- `to_str` is Python's str().
  unfoldable pub build_ml_override_maps : String → Dict Value → Dict (Dict Value)
  unfolding with_map get_set truthy
  build_ml_override_maps strategy_code ml =
      with_map "strategyMlShadowModeOverrides" strategy_code
        (on_value (λ v. bool (truthy v)) (get_set ml_sentinel_shadow_mode ml))
        (with_map "strategyMlSignalNameOverrides" strategy_code
          (on_value (λ v. text (to_str v)) (get_set ml_sentinel_signal_name ml))
          (with_map "strategyMlGateOverrides" strategy_code
            (on_value (λ v. bool (truthy v)) (get_set ml_sentinel_gate_enabled ml)) []))
