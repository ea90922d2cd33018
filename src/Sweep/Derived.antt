-- ===== src/Sweep/Derived.antt =====
-- The combination at an index of the grid, key by key.
use research_orchestrator.Prelude.{
  ℕ, zero, suc, length, ◌<◌, String, str_eq, str_eq_iff, ◌≡◌, refl, sym, ◌∙◌, ap, Bool, false, ◌||◌,
  none, some, List, [], ◌∷◌, get_elem?, arith,
}
use research_orchestrator.Prelude.Dict.{Dict, lookup, insert, lookup-insert}
use research_orchestrator.Sweep.{
  Value, Param, value_lists, names, zip_onto, as_combo, derive_combo, total_combos,
}
use research_orchestrator.Sweep.Cells.{
  InBounds, encode, decode, pick, encode-lt-size, total_combos-eq-size, decode-encode,
  get_elem?-product, derive_combo-get_elem?,
}

abbrev pub is_named : String → List String → Bool
is_named k [] = false
is_named k (j ∷ js) = str_eq j k || is_named k js

-- No two parameters share a name.
abbrev pub IsDistinct : List String → Type 0
IsDistinct [] = Unit
IsDistinct (k ∷ ks) = (is_named k ks ≡ false) × IsDistinct ks

-- Each parameter has the value at the position chosen for it.
abbrev pub IsChosen : List Param → List ℕ → Dict Value → Type 0
IsChosen [] [] d = Unit
IsChosen [] (c ∷ cs) d = ⊥
IsChosen (p ∷ ps) [] d = ⊥
IsChosen (p ∷ ps) (c ∷ cs) d = (lookup p.name d ≡ get_elem? p.values c) × IsChosen ps cs d

-- A key that is none of the names keeps its value.
lookup-zip_onto :
    (k : String) (d : Dict Value) (ks : List String) (vs : List Value)
    → is_named k ks ≡ false
    → lookup k (zip_onto d ks vs) ≡ lookup k d
unfolding zip_onto
lookup-zip_onto k d [] vs h = refl
lookup-zip_onto k d (j ∷ js) [] h = refl
lookup-zip_onto k d (j ∷ js) (v ∷ vs) h =
    lookup-zip_onto k (insert j v d) js vs (ground (arith, h))
    ∙ ground (arith, h, lookup-insert j k v d)

lookup-insert-same : (k : String) (v : Value) (d : Dict Value) → lookup k (insert k v d) ≡ some v
lookup-insert-same k v d = ground (arith, lookup-insert k k v d, str_eq_iff k k)

value_at : (xs : List Value) (c : ℕ) → c < length xs → (v : Value) × (get_elem? xs c ≡ some v)
value_at [] c h = absurd (omega (arith, h))
value_at (x ∷ xs) zero h = (x, refl)
value_at (x ∷ xs) (suc c) h = value_at xs c (omega (arith, h))

zip_onto-IsChosen :
    (ps : List Param) (choice : List ℕ) (d : Dict Value)
    → InBounds (value_lists ps) choice
    → IsDistinct (names ps)
    → (vs : List Value) × (pick (value_lists ps) choice ≡ some vs)
      × IsChosen ps choice (zip_onto d (names ps) vs)
unfolding zip_onto names value_lists pick
zip_onto-IsChosen [] [] d b h = ([], refl, tt)
zip_onto-IsChosen [] (c ∷ cs) d b h = elim b [ ]
zip_onto-IsChosen (p ∷ ps) [] d b h = elim b [ ]
zip_onto-IsChosen (p ∷ ps) (c ∷ cs) d b h =
    let (v, here) = value_at p.values c b.0 in
    let (vs, picked, chosen) = zip_onto-IsChosen ps cs (insert p.name v d) b.1 h.1 in
    (
      v ∷ vs,
      rw (here, picked) refl,
      (
        lookup-zip_onto p.name (insert p.name v d) (names ps) vs h.0
            ∙ lookup-insert-same p.name v d
            ∙ sym here,
        chosen,
      ),
    )

-- Every choice of one value per parameter is a cell of the grid, where no two parameters share a
-- name: it has an index below the number of combinations, and at that index the sweep derives a
-- combination in which each parameter has the value that was chosen for it and no other key has
-- one; and the index determines the choice, so no cell has two.
pub derive_combo-encode :
    (ps : List Param) (choice : List ℕ) (other : String)
    → InBounds (value_lists ps) choice
    → IsDistinct (names ps)
    → is_named other (names ps) ≡ false
    → let i = encode (value_lists ps) choice in
      (i < total_combos ps)
      × (decode (value_lists ps) i ≡ choice)
      × ((combo : Dict Value) × (derive_combo ps i ≡ some combo)
          × IsChosen ps choice combo
          × (lookup other combo ≡ none))
unfolding as_combo lookup
derive_combo-encode ps choice other b h fresh =
    let (vs, picked, chosen) = zip_onto-IsChosen ps choice [] b h in
    (
      rw (total_combos-eq-size ps) (encode-lt-size (value_lists ps) choice b),
      decode-encode (value_lists ps) choice b,
      (
        zip_onto [] (names ps) vs,
        derive_combo-get_elem? ps _
            ∙ ap (as_combo ps) (get_elem?-product (value_lists ps) choice b ∙ picked),
        chosen,
        lookup-zip_onto other [] (names ps) vs fresh,
      ),
    )
