-- ===== src/Sweep/Exhaustion.antt =====
-- When a grid sweep is exhausted.
use research_orchestrator.Prelude.{
  ℕ, zero, suc, ◌≤◌, ◌<◌, ◌≡◌, ◌≢◌, ◌↔◌, refl, Option, none, some, List, [], ◌∷◌, arith, length,
  get_elem?, ◌∙◌, sym,
}
use native.Mathlib.Decide.{dec_lt}
use research_orchestrator.Sweep.{
  Value, Param, product, value_lists, derive_combo, as_combo, total_combos,
}
use research_orchestrator.Sweep.Cells.{
  InBounds, encode, decode, encode-decode, decode-InBounds, length-product, total_combos-eq-size,
  get_elem?-none, derive_combo-get_elem?, encode-lt-size,
}

some_of_lt {ℓ} : {A : Type ℓ} (xs : List A) (i : ℕ) → i < length xs → get_elem? xs i ≢ none
some_of_lt [] i h e = absurd (omega arith)
some_of_lt (x ∷ xs) zero h e = cc
some_of_lt (x ∷ xs) (suc i) h e = some_of_lt xs i (omega arith) e

as_combo_some : (ps : List Param) (o : Option (List Value)) → o ≢ none → as_combo ps o ≢ none
unfolding as_combo
as_combo_some ps none h e = h refl
as_combo_some ps (some vs) h e = cc

combo_of_lt : (ps : List Param) (i : ℕ) → i < total_combos ps → derive_combo ps i ≢ none
combo_of_lt ps i h e =
    as_combo_some ps (get_elem? (product (value_lists ps)) i)
      (some_of_lt (product (value_lists ps)) i
        (omega (arith, length-product (value_lists ps), total_combos-eq-size ps)))
      (sym (derive_combo-get_elem? ps i) ∙ e)

none_of_le : (ps : List Param) (i : ℕ) → total_combos ps ≤ i → derive_combo ps i ≡ none
unfolding as_combo
none_of_le ps i h =
    derive_combo-get_elem? ps i
    ∙ rw (
        get_elem?-none (product (value_lists ps)) i
          (omega (arith, length-product (value_lists ps), total_combos-eq-size ps)))

le_of_none : (ps : List Param) (i : ℕ) → derive_combo ps i ≡ none → total_combos ps ≤ i
le_of_none ps i e = elim (dec_lt i (total_combos ps)) [
  | yes lt ↦ absurd (combo_of_lt ps i lt e)
  | no ge ↦ omega arith
]

-- The sweep derives no combination exactly from the number of combinations on; and the indices below
-- that number are exactly those that are the cell of a choice of positions.
pub derive_combo_exhausted :
    (ps : List Param) (i : ℕ)
    → ((derive_combo ps i ≡ none) ↔ (total_combos ps ≤ i))
      × ((i < total_combos ps) ↔ (
          InBounds (value_lists ps) (decode (value_lists ps) i)
          × (encode (value_lists ps) (decode (value_lists ps) i) ≡ i)))
derive_combo_exhausted ps i = (
  (le_of_none ps i, none_of_le ps i),
  (
    λ h. (
      decode-InBounds (value_lists ps) i (omega (arith, total_combos-eq-size ps)),
      encode-decode (value_lists ps) i (omega (arith, total_combos-eq-size ps)),
    ),
    λ (bounds, same). omega (
      arith,
      encode-lt-size (value_lists ps) (decode (value_lists ps) i) bounds,
      same,
      total_combos-eq-size ps,
    ),
  ),
)
