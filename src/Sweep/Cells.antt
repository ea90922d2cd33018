-- ===== src/Sweep/Cells.antt =====
-- The cells of the grid: an index is a choice of one position per parameter, in mixed
-- radix with the first parameter as the highest digit.
use research_orchestrator.Prelude.{
  ℕ, zero, suc, ◌+◌, ◌*◌, ◌/◌, ◌%◌, ◌≤◌, ◌<◌, ◌≡◌, refl, Option, none, some, List, [], ◌∷◌, ◌++◌,
  map, arith, length, get_elem?, length-append, leb, Bool-cases, inl, inr, ◌∙◌, ap, ap₂,
}
use native.Mathlib.Nat.{
  mul-add-div_right, mul-add-mod_self_right, mod-eq_of_lt, div-eq_of_lt, div-lt_iff_lt-mul,
  mul_assoc, mul_comm, div-add-mod, mod-lt,
}
use research_orchestrator.Sweep.{
  Param, product, prefix_all, value_lists, derive_combo, as_combo, total_onto, total_combos,
}

size_pos : (l n i : ℕ) → i < l * n → 0 < n
size_pos l zero i h = absurd (omega arith)
size_pos l (suc n) i h = omega arith

quotient : (p n e : ℕ) → e < n → (p * n + e) / n ≡ p
quotient p n e h =
    mul-add-div_right (size_pos 1 n e (omega arith)) p e ∙ rw (div-eq_of_lt h) (omega arith)

remainder : (p n e : ℕ) → e < n → (p * n + e) % n ≡ e
remainder p n e h = mul-add-mod_self_right p n e ∙ mod-eq_of_lt h

div_mod : (i n : ℕ) → i / n * n + i % n ≡ i
div_mod i n = rw (mul_comm (i / n) n) (div-add-mod i n)

quotient_lt : (l n i : ℕ) → i < l * n → i / n < l
quotient_lt l n i h = (div-lt_iff_lt-mul (size_pos l n i h)).1 h

module _ {ℓ} {A : Type ℓ} where
  -- How many cells the grid over these lists has.
  pub size : List (List A) → ℕ
  size [] = 1
  size (xs ∷ xss) = length xs * size xss

  -- One position in each list.
  abbrev pub InBounds : List (List A) → List ℕ → Type 0
  InBounds [] [] = Unit
  InBounds [] (p ∷ ps) = ⊥
  InBounds (xs ∷ xss) [] = ⊥
  InBounds (xs ∷ xss) (p ∷ ps) = (p < length xs) × InBounds xss ps

  pub encode : List (List A) → List ℕ → ℕ
  unfolding size
  encode (xs ∷ xss) (p ∷ ps) = p * size xss + encode xss ps
  encode _ _ = 0

  pub decode : List (List A) → ℕ → List ℕ
  unfolding size
  decode [] i = []
  decode (xs ∷ xss) i = i / size xss ∷ decode xss (i % size xss)

  abbrev cons_option : Option A → Option (List A) → Option (List A)
  cons_option (some x) (some r) = some (x ∷ r)
  cons_option _ _ = none

  -- The values at the chosen positions.
  unfoldable pub pick : List (List A) → List ℕ → Option (List A)
  pick [] ps = some []
  pick (xs ∷ xss) [] = none
  pick (xs ∷ xss) (p ∷ ps) = cons_option (get_elem? xs p) (pick xss ps)

  length-map-cons : (x : A) (rest : List (List A)) → length (map (λ r. x ∷ r) rest) ≡ length rest
  length-map-cons x [] = refl
  length-map-cons x (r ∷ rest) = omega (arith, length-map-cons x rest)

  length-prefix_all :
      (xs : List A) (rest : List (List A)) → length (prefix_all xs rest) ≡ length xs * length rest
  unfolding prefix_all
  length-prefix_all [] rest = omega arith
  length-prefix_all (x ∷ xs) rest = omega (
    arith,
    length-append (map (λ r. x ∷ r) rest) (prefix_all xs rest),
    length-map-cons x rest,
    length-prefix_all xs rest,
  )

  pub length-product : (xss : List (List A)) → length (product xss) ≡ size xss
  unfolding product size
  length-product [] = refl
  length-product (xs ∷ xss) =
      length-prefix_all xs (product xss) ∙ ap (λ (n : ℕ). length xs * n) (length-product xss)

  get_elem?-left :
      (xs ys : List (List A)) (i : ℕ) → i < length xs → get_elem? (xs ++ ys) i ≡ get_elem? xs i
  get_elem?-left [] ys i h = absurd (omega arith)
  get_elem?-left (x ∷ xs) ys zero h = refl
  get_elem?-left (x ∷ xs) ys (suc i) h = get_elem?-left xs ys i (omega arith)

  get_elem?-right :
      (xs ys : List (List A)) (i : ℕ) → get_elem? (xs ++ ys) (length xs + i) ≡ get_elem? ys i
  get_elem?-right [] ys i = ap (get_elem? ys) (omega arith)
  get_elem?-right (x ∷ xs) ys i =
      ap (get_elem? (x ∷ (xs ++ ys))) {y = suc (length xs + i)} (omega arith)
      ∙ get_elem?-right xs ys i

  get_elem?-map-cons :
      (x : A) (rest : List (List A)) (i : ℕ)
      → get_elem? (map (λ r. x ∷ r) rest) i ≡ cons_option (some x) (get_elem? rest i)
  get_elem?-map-cons x [] i = refl
  get_elem?-map-cons x (r ∷ rest) zero = refl
  get_elem?-map-cons x (r ∷ rest) (suc i) = get_elem?-map-cons x rest i

  get_elem?-prefix_all :
      (xs : List A) (rest : List (List A)) (a b : ℕ)
      → b < length rest
      → get_elem? (prefix_all xs rest) (a * length rest + b)
        ≡ cons_option (get_elem? xs a) (get_elem? rest b)
  unfolding prefix_all
  get_elem?-prefix_all [] rest a b h = refl
  get_elem?-prefix_all (x ∷ xs) rest zero b h =
      ap (get_elem? (map (λ r. x ∷ r) rest ++ prefix_all xs rest)) (omega arith)
      ∙ get_elem?-left (map (λ r. x ∷ r) rest) _ b (omega (arith, length-map-cons x rest))
      ∙ get_elem?-map-cons x rest b
  get_elem?-prefix_all (x ∷ xs) rest (suc a) b h =
      ap (get_elem? (map (λ r. x ∷ r) rest ++ prefix_all xs rest))
        (omega (arith, length-map-cons x rest))
      ∙ get_elem?-right (map (λ r. x ∷ r) rest) (prefix_all xs rest) (a * length rest + b)
      ∙ get_elem?-prefix_all xs rest a b h

  pub encode-lt-size :
      (xss : List (List A)) (ps : List ℕ) → InBounds xss ps → encode xss ps < size xss
  unfolding encode size
  encode-lt-size [] [] b = omega arith
  encode-lt-size [] (p ∷ ps) b = elim b [ ]
  encode-lt-size (xs ∷ xss) [] b = elim b [ ]
  encode-lt-size (xs ∷ xss) (p ∷ ps) b = grind (arith, encode-lt-size xss ps b.1, b.0)

  pub get_elem?-product :
      (xss : List (List A)) (ps : List ℕ)
      → InBounds xss ps
      → get_elem? (product xss) (encode xss ps) ≡ pick xss ps
  unfolding product encode pick
  get_elem?-product [] [] b = refl
  get_elem?-product [] (p ∷ ps) b = elim b [ ]
  get_elem?-product (xs ∷ xss) [] b = elim b [ ]
  get_elem?-product (xs ∷ xss) (p ∷ ps) b = rw (← length-product xss) (
      get_elem?-prefix_all xs (product xss) p (encode xss ps)
        (rw (length-product xss) (encode-lt-size xss ps b.1))
      ∙ rw (get_elem?-product xss ps b.1))

  -- Position and index determine one another.
  pub decode-encode :
      (xss : List (List A)) (ps : List ℕ) → InBounds xss ps → decode xss (encode xss ps) ≡ ps
  unfolding decode encode
  decode-encode [] [] b = refl
  decode-encode [] (p ∷ ps) b = elim b [ ]
  decode-encode (xs ∷ xss) [] b = elim b [ ]
  decode-encode (xs ∷ xss) (p ∷ ps) b =
      let lt = encode-lt-size xss ps b.1 in
      ap₂ (λ (q : ℕ) (qs : List ℕ). q ∷ qs) (quotient p (size xss) (encode xss ps) lt)
        (ap (decode xss) (remainder p (size xss) (encode xss ps) lt) ∙ decode-encode xss ps b.1)

  pub encode-decode : (xss : List (List A)) (i : ℕ) → i < size xss → encode xss (decode xss i) ≡ i
  unfolding decode encode size
  encode-decode [] i h = omega arith
  encode-decode (xs ∷ xss) i h =
      rw (encode-decode xss (i % size xss) (mod-lt i (size_pos (length xs) (size xss) i h)))
        (div_mod i (size xss))

  pub decode-InBounds : (xss : List (List A)) (i : ℕ) → i < size xss → InBounds xss (decode xss i)
  unfolding decode size
  decode-InBounds [] i h = tt
  decode-InBounds (xs ∷ xss) i h = (
    quotient_lt (length xs) (size xss) i h,
    decode-InBounds xss (i % size xss) (mod-lt i (size_pos (length xs) (size xss) i h)),
  )

total_onto-eq-size : (n : ℕ) (ps : List Param) → total_onto n ps ≡ n * size (value_lists ps)
unfolding total_onto size value_lists
total_onto-eq-size n [] = omega arith
total_onto-eq-size n (p ∷ ps) =
    total_onto-eq-size (n * length p.values) ps
    ∙ mul_assoc n (length p.values) (size (value_lists ps))

pub total_combos-eq-size : (ps : List Param) → total_combos ps ≡ size (value_lists ps)
unfolding total_combos value_lists size
total_combos-eq-size [] = refl
total_combos-eq-size (p ∷ ps) = total_onto-eq-size 1 (p ∷ ps) ∙ omega arith

pub get_elem?-none {ℓ} : {A : Type ℓ} (xs : List A) (i : ℕ) → length xs ≤ i → get_elem? xs i ≡ none
get_elem?-none [] i h = refl
get_elem?-none (x ∷ xs) zero h = absurd (omega arith)
get_elem?-none (x ∷ xs) (suc i) h = get_elem?-none xs i (omega arith)

-- The test on the length changes nothing: a sweep reads its list of combinations at the index.
pub derive_combo-get_elem? :
    (ps : List Param) (i : ℕ)
    → derive_combo ps i ≡ as_combo ps (get_elem? (product (value_lists ps)) i)
unfolding derive_combo value_lists
derive_combo-get_elem? [] zero = refl
derive_combo-get_elem? [] (suc i) = ground arith
derive_combo-get_elem? (p ∷ ps) i =
    elim (Bool-cases (leb (length (product (value_lists (p ∷ ps)))) i)) [
      | inl e ↦ rw (e, get_elem?-none (product (value_lists (p ∷ ps))) i (ground arith))
      | inr e ↦ rw e
    ]
