-- ===== src/Sweep/Tests.antt =====
-- A small grid, what the sweep derives from it, and the theorems at these inputs.
use research_orchestrator.Prelude.{
  ℕ, ◌≤◌, ◌<◌, ◌≡◌, ◌↔◌, refl, true, false, none, some, List, [], ◌∷◌, arith, if◌then◌else◌,
}
use research_orchestrator.Prelude.Dict.{Dict, lookup, insert}
use research_orchestrator.Sweep.{
  Value, bool, number, Param, derive_combo, total_combos, names, value_lists, split_ml_overrides,
  is_ml_sentinel, build_ml_override_maps,
}
use research_orchestrator.Sweep.Splitting.{lookup-split_ml_overrides}
use research_orchestrator.Sweep.Cells.{InBounds, encode, decode}
use research_orchestrator.Sweep.Derived.{IsChosen, derive_combo-encode}
use research_orchestrator.Sweep.Exhaustion.{derive_combo_exhausted}

abbrev int : ℕ → Value
int n = number false n 0

abbrev grid : List Param
grid =
    record { name = "_ml_gate_enabled"; values = bool false ∷ bool true ∷ [] }
    ∷ record { name = "rsi"; values = int 20 ∷ int 25 ∷ int 30 ∷ [] }
    ∷ []

-- The first parameter varies slowest.
derive_combo-grid :
    (derive_combo grid 0 ≡ some (("_ml_gate_enabled", bool false) ∷ ("rsi", int 20) ∷ []))
    × (derive_combo grid 4 ≡ some (("_ml_gate_enabled", bool true) ∷ ("rsi", int 25) ∷ []))
    × (derive_combo grid 6 ≡ none)
    × (total_combos grid ≡ 6)
unfolding derive_combo total_combos
derive_combo-grid = (refl, refl, refl, refl)

abbrev combo : Dict Value
combo = ("_ml_gate_enabled", int 0) ∷ ("rsi", int 20) ∷ []

split-combo : split_ml_overrides combo ≡ (("rsi", int 20) ∷ [], ("_ml_gate_enabled", int 0) ∷ [])
unfolding split_ml_overrides is_ml_sentinel insert
split-combo = refl

-- `bool(0)` is False.
maps-combo :
    build_ml_override_maps (λ v. "") "VCB" (split_ml_overrides combo).1
    ≡ ("strategyMlGateOverrides", ("VCB", bool false) ∷ []) ∷ []
unfolding split_ml_overrides is_ml_sentinel insert build_ml_override_maps
maps-combo = refl

lookup-split_ml_overrides_example :
    let (regular, ml) = split_ml_overrides combo in
    (lookup "rsi" regular ≡ (if is_ml_sentinel "rsi" then none else lookup "rsi" combo))
    × (lookup "rsi" ml ≡ (if is_ml_sentinel "rsi" then lookup "rsi" combo else none))
unfolding lookup
lookup-split_ml_overrides_example = lookup-split_ml_overrides "rsi" combo (refl, (refl, tt))

derive_combo-encode_example :
    let i = encode (value_lists grid) (1 ∷ 2 ∷ []) in
    (i < total_combos grid)
    × (decode (value_lists grid) i ≡ 1 ∷ 2 ∷ [])
    × ((derived : Dict Value) × (derive_combo grid i ≡ some derived)
        × IsChosen grid (1 ∷ 2 ∷ []) derived
        × (lookup "sl" derived ≡ none))
derive_combo-encode_example =
    derive_combo-encode grid (1 ∷ 2 ∷ []) "sl"
      (unfold value_lists in (omega arith, (omega arith, tt))) (unfold names in (refl, (refl, tt)))
      (unfold names in refl)

derive_combo_exhausted_example :
    ((derive_combo grid 6 ≡ none) ↔ (total_combos grid ≤ 6))
    × ((6 < total_combos grid) ↔ (
        InBounds (value_lists grid) (decode (value_lists grid) 6)
        × (encode (value_lists grid) (decode (value_lists grid) 6) ≡ 6)))
derive_combo_exhausted_example = derive_combo_exhausted grid 6
