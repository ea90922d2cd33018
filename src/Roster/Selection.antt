-- ===== src/Roster/Selection.antt =====
-- What `select_roster_fill` picks, whatever the order of floats and texts is.
use research_orchestrator.Prelude.{
  ℕ, ◌≤◌, ◌<◌, ◌-◌, String, Bool, true, false, List, [], ◌∷◌, ◌++◌, ◌||◌, any, length, leb, str_eq,
  str_eq_iff, ◌≡◌, refl, arith, All, All-append, any-append, length-append, Bool-cases, inl, inr,
}
use research_orchestrator.Prelude.Sorting.{sort_descending-All}
use research_orchestrator.Numbers.{Numbers}
use research_orchestrator.Roster.{
  Candidate, Ranked, code, mem, fill, is_eligible, annotated, annotated_all,
  rank_provisional_candidates, roster_gap, select_roster_fill,
}

module _ {F : Type 0} where
  -- whether a strategy is among the picks
  abbrev pub picked : String → List (Ranked F) → Bool
  picked s picks = any (λ r. str_eq (code r) s) picks

  -- No strategy has two picks.
  abbrev pub Distinct : List (Ranked F) → Type 0
  Distinct [] = Unit
  Distinct (r ∷ rs) = (picked (code r) rs ≡ false) × Distinct rs

  Distinct-append :
      (c : Ranked F) (rs : List (Ranked F))
      → picked (code c) rs ≡ false
      → Distinct rs
      → Distinct (rs ++ (c ∷ []))
  Distinct-append c [] p h = (refl, tt)
  Distinct-append c (r ∷ rs) p h = (
    ground (
      arith,
      any-append (λ s. str_eq (code s) (code r)) rs (c ∷ []),
      str_eq_iff (code c) (code r),
      str_eq_iff (code r) (code c),
      h.0,
    ),
    Distinct-append c rs (ground (arith, p)) h.1,
  )

  -- `seen` holds the codes of `picks`.
  abbrev pub IsSeen : List String → List (Ranked F) → Type 0
  IsSeen seen picks = (s : String) → mem s seen ≡ picked s picks

  pub IsSeen-append :
      (c : Ranked F) (seen : List String) (picks : List (Ranked F))
      → IsSeen seen picks
      → IsSeen (code c ∷ seen) (picks ++ (c ∷ []))
  unfolding mem
  IsSeen-append c seen picks h s =
      ground (arith, any-append (λ r. str_eq (code r) s) picks (c ∷ []), h s)

  -- What holds of the picks at every pass of the loop.
  record Picks (P : Ranked F → Type 0) (gap : ℕ) (excl : List String) (picks : List (Ranked F))
      : Type 0 where
    pub bounded : length picks ≤ gap
    pub distinct : Distinct picks
    pub admitted : All (λ r. P r × (mem (code r) excl ≡ false)) picks

  module _ (P : Ranked F → Type 0) (gap : ℕ) (excl : List String) where
    Picks-append :
        (c : Ranked F) (picks : List (Ranked F))
        → P c
        → mem (code c) excl ≡ false
        → picked (code c) picks ≡ false
        → length picks < gap
        → Picks P gap excl picks
        → Picks P gap excl (picks ++ (c ∷ []))
    Picks-append c picks p e d l h = record {
      bounded = omega (arith, length-append picks (c ∷ []));
      distinct = Distinct-append c picks d h.distinct;
      admitted = All-append _ picks (c ∷ []) h.admitted ((p, e), tt);
    }

    fill-Picks :
        (rs picks : List (Ranked F)) (seen : List String)
        → All P rs
        → IsSeen seen picks
        → length picks < gap
        → Picks P gap excl picks
        → Picks P gap excl (fill gap excl rs picks seen)
    unfolding fill
    fill-Picks [] picks seen p s l h = h
    fill-Picks (c ∷ rs) picks seen p s l h =
        elim (Bool-cases (mem (code c) excl || mem (code c) seen)) [
          | inl e ↦ rw (e, fill) (fill-Picks rs picks seen p.1 s l h)
          | inr e ↦
              let grown =
                Picks-append c picks p.0 (ground (arith, e)) (ground (arith, e, s (code c))) l h in
              rw (e, fill)
                (elim (Bool-cases (leb gap (length (picks ++ (c ∷ []))))) [
                  | inl f ↦ rw f grown
                  | inr f ↦ rw f (
                      fill-Picks rs _ _ p.1 (IsSeen-append c seen picks s) (ground (arith, f))
                        grown)
                ])
        ]

module _ (n : Numbers) where
  open n use {F}

  annotated_all-eligible :
      (cs : List (Candidate F)) → All (λ r. is_eligible n r.candidate ≡ true) (annotated_all n cs)
  unfolding annotated_all annotated
  annotated_all-eligible [] = tt
  annotated_all-eligible (c ∷ cs) = elim (Bool-cases (is_eligible n c)) [
    | inl e ↦ rw e (e, annotated_all-eligible cs)
    | inr e ↦ rw e (annotated_all-eligible cs)
  ]

  -- A strategy that may fill a slot: it is eligible, and not one of the excluded.
  abbrev pub MayFill : List String → Ranked F → Type 0
  MayFill excl r = (is_eligible n r.candidate ≡ true) × (mem (code r) excl ≡ false)

  -- The picks of `select_roster_fill` are at most as many as the roster lacks of its floor, no
  -- strategy has two of them, and each is eligible and not among the excluded codes.
  pub select_roster_fill_sound :
      (active floor : ℕ) (candidates : List (Candidate F)) (excl : List String)
      → let picks = select_roster_fill n active candidates floor excl in
        (length picks ≤ floor - active) × Distinct picks × All (MayFill excl) picks
  unfolding select_roster_fill roster_gap rank_provisional_candidates mem
  select_roster_fill_sound active floor candidates excl =
      elim (Bool-cases (leb (floor - active) 0)) [
        | inl e ↦ rw e (omega arith, tt, tt)
        | inr e ↦
            let h =
              fill-Picks (λ r. is_eligible n r.candidate ≡ true) (floor - active) excl _ [] []
                (sort_descending-All _ _ _ (annotated_all-eligible candidates)) (λ s. refl)
                (ground (arith, e))
                (record { bounded = omega arith; distinct = tt; admitted = tt }) in
            rw e (h.bounded, h.distinct, h.admitted)
      ]
