-- ===== src/Sweep/Grid.antt =====
-- The grid: `derive_combo`, `total_combos`, and the budget of a TPE sweep in services/sweep.py.
use research_orchestrator.Prelude.{
  ℕ, ◌*◌, String, str_eq, Bool, false, Option, none, some, List, [], ◌∷◌, ◌++◌, map, leb, ◌==◌,
  if◌then◌else◌, length, get_elem?,
}
use research_orchestrator.Prelude.Dict.{Dict, insert}
use research_orchestrator.Sweep.Config.{Value, Param, SweepConfig}

-- itertools.product: the first list varies slowest.
module _ {ℓ} {A : Type ℓ} where
  unfoldable pub prefix_all : List A → List (List A) → List (List A)
  prefix_all [] rest = []
  prefix_all (x ∷ xs) rest = map (λ r. x ∷ r) rest ++ prefix_all xs rest

  unfoldable pub product : List (List A) → List (List A)
  unfolding prefix_all
  product [] = [] ∷ []
  product (xs ∷ xss) = prefix_all xs (product xss)

-- dict(zip(keys, values))
unfoldable pub zip_onto : Dict Value → List String → List Value → Dict Value
unfolding insert
zip_onto d (k ∷ ks) (v ∷ vs) = zip_onto (insert k v d) ks vs
zip_onto d _ _ = d

unfoldable pub names : List Param → List String
names ps = map (λ p. p.name) ps

unfoldable pub value_lists : List Param → List (List Value)
value_lists ps = map (λ p. p.values) ps

unfoldable pub as_combo : List Param → Option (List Value) → Option (Dict Value)
unfolding zip_onto names
as_combo ps none = none
as_combo ps (some vs) = some (zip_onto [] (names ps) vs)

-- The index is never negative, so that test of the source is left out.
unfoldable pub derive_combo : List Param → ℕ → Option (Dict Value)
unfolding product as_combo value_lists
derive_combo [] i = if i == 0 then some [] else none
derive_combo (p ∷ ps) i =
    let combos = product (value_lists (p ∷ ps)) in
    if leb (length combos) i then none else as_combo (p ∷ ps) (get_elem? combos i)

-- The loop `n *= len(p["values"])`
unfoldable pub total_onto : ℕ → List Param → ℕ
total_onto n [] = n
total_onto n (p ∷ ps) = total_onto (n * length p.values) ps

unfoldable pub total_combos : List Param → ℕ
unfolding total_onto
total_combos [] = 1
total_combos (p ∷ ps) = total_onto 1 (p ∷ ps)

unfoldable pub is_tpe : SweepConfig → Bool
is_tpe c = elim c.strategy [ none ↦ false | some s ↦ str_eq s "tpe" ]

unfoldable pub tpe_trial_budget : SweepConfig → ℕ
tpe_trial_budget c = elim c.n_trials [ none ↦ 20 | some n ↦ n ]
