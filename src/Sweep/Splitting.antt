-- ===== src/Sweep/Splitting.antt =====
-- The two halves of a combination that is split.
use research_orchestrator.Prelude.{
  String, str_eq, str_eq_iff, ◌≡◌, true, none, [], ◌∷◌, arith, if◌then◌else◌, ◌∙◌,
}
use research_orchestrator.Prelude.Dict.{Dict, lookup, insert, Distinct, lookup-insert, or_else}
use research_orchestrator.Sweep.{Value, is_ml_sentinel, split_onto, split_ml_overrides}

-- A key reads the same in two dicts when it is spelled the same.
sentinel_of_eq : (k j : String) → str_eq k j ≡ true → is_ml_sentinel j ≡ is_ml_sentinel k
sentinel_of_eq k j h = cc ((str_eq_iff k j).0 h)

module _ (j : String) where
  lookup-regular :
      (regular ml combo : Dict Value)
      → Distinct combo
      → lookup j (split_onto regular ml combo).0 ≡ (
          if is_ml_sentinel j
          then lookup j regular
          else or_else (lookup j combo) (lookup j regular))
  unfolding split_onto lookup
  lookup-regular regular ml [] d = ground arith
  lookup-regular regular ml ((k, v) ∷ combo) d =
      lookup-regular (if is_ml_sentinel k then regular else insert k v regular)
        (if is_ml_sentinel k then insert k v ml else ml) combo d.1
      ∙ ground (arith, str_eq_iff k j, sentinel_of_eq k j, lookup-insert k j v regular)

  lookup-ml :
      (regular ml combo : Dict Value)
      → Distinct combo
      → lookup j (split_onto regular ml combo).1
        ≡ (if is_ml_sentinel j then or_else (lookup j combo) (lookup j ml) else lookup j ml)
  unfolding split_onto lookup
  lookup-ml regular ml [] d = ground arith
  lookup-ml regular ml ((k, v) ∷ combo) d =
      lookup-ml (if is_ml_sentinel k then regular else insert k v regular)
        (if is_ml_sentinel k then insert k v ml else ml) combo d.1
      ∙ ground (arith, str_eq_iff k j, sentinel_of_eq k j, lookup-insert k j v ml)

-- The ML half of a combination with distinct keys holds exactly its sentinel keys and the regular
-- half all others, each with its value.
pub lookup-split_ml_overrides :
    (j : String) (combo : Dict Value)
    → Distinct combo
    → let (regular, ml) = split_ml_overrides combo in
      (lookup j regular ≡ (if is_ml_sentinel j then none else lookup j combo))
      × (lookup j ml ≡ (if is_ml_sentinel j then lookup j combo else none))
unfolding split_ml_overrides
lookup-split_ml_overrides j combo d = (
  lookup-regular j [] [] combo d ∙ unfold lookup in ground arith,
  lookup-ml j [] [] combo d ∙ unfold lookup in ground arith,
)
