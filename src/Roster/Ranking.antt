-- ===== src/Roster/Ranking.antt =====
-- The order of the candidates, and why a candidate is left out: with the laws of the orders of
-- floats and texts.
use research_orchestrator.Prelude.{
  ℕ, ◌<◌, ◌-◌, String, Bool, true, false, List, [], ◌∷◌, ◌++◌, ◌||◌, ◌&&◌, any, length, leb, not,
  str_eq, str_eq_iff, ◌≡◌, refl, sym, subst, arith, All, All-append, All-of_Mem, any-append,
  length-append, Bool-cases, inl, inr,
}
use research_orchestrator.Prelude.Sorting.{
  sort_descending, IsWeakOrder, IsKeyOrder, IsDescending, then_by-IsWeakOrder,
  sort_descending-IsDescending, sort_descending-Perm, All-sort_descending,
}
use mathlib.Core.List.{Mem, Perm, Pairwise, mem-cons_self, mem-cons_of_mem}
use research_orchestrator.Numbers.{Numbers}
use research_orchestrator.Roster.{
  Candidate, Ranked, code, mem, fill, annotated_all, rank_provisional_candidates, roster_gap,
  select_roster_fill, worse, dsr_sort,
}
use research_orchestrator.Roster.Selection.{IsSeen, IsSeen-append, picked}

-- The order of floats without NaN, and that of texts.
pub record OrderLaws (n : Numbers) : Type 0 where
  pub floats : IsKeyOrder n.lt n.eq
  pub texts : IsWeakOrder n.str_lt

-- Orders pulled back along a key.
pub IsWeakOrder-on {ℓ κ} :
    {A : Type ℓ} {B : Type κ} (f : A → B) {lt : B → B → Bool}
    → IsWeakOrder lt
    → IsWeakOrder λ a b. lt (f a) (f b)
IsWeakOrder-on f h = record {
  asymmetric = λ a b. h.asymmetric (f a) (f b);
  transitive = λ a b c. h.transitive (f a) (f b) (f c);
}

pub IsKeyOrder-on {ℓ κ} :
    {A : Type ℓ} {B : Type κ} (f : A → B) {lt eq : B → B → Bool}
    → IsKeyOrder lt eq
    → IsKeyOrder (λ a b. lt (f a) (f b)) λ a b. eq (f a) (f b)
IsKeyOrder-on f h = record {
  order = IsWeakOrder-on f h.order;
  equal = λ a b. h.equal (f a) (f b);
  unequal = λ a b. h.unequal (f a) (f b);
  symmetric = λ a b. h.symmetric (f a) (f b);
}

module _ {F : Type 0} (worse : Ranked F → Ranked F → Bool) where
  -- whether a pick is of the same strategy as `c` and not worse
  abbrev pub beats : Ranked F → Ranked F → Bool
  beats c r = str_eq (code r) (code c) && not (worse r c)

  -- No pick is worse than `c`.
  abbrev pub NoneWorse : List (Ranked F) → Ranked F → Type 0
  NoneWorse picks c = All (λ r. worse r c ≡ false) picks

  -- Why an eligible candidate needs no further slot: its strategy is excluded, a candidate of its
  -- strategy that is not worse has a slot, or the slots are used up by candidates not worse.
  pub data IsSettled (gap : ℕ) (excl : List String) (picks : List (Ranked F)) (c : Ranked F)
      : Type 0 where
    excluded : mem (code c) excl ≡ true → IsSettled gap excl picks c
    represented : any (beats c) picks ≡ true → IsSettled gap excl picks c
    full : length picks ≡ gap → NoneWorse picks c → IsSettled gap excl picks c

  picked-beats :
      (c : Ranked F) (picks : List (Ranked F))
      → picked (code c) picks ≡ true
      → NoneWorse picks c
      → any (beats c) picks ≡ true
  picked-beats c [] p h = ground (arith, p)
  picked-beats c (r ∷ rs) p h = elim (Bool-cases (str_eq (code r) (code c))) [
    | inl e ↦ ground (arith, e, h.0)
    | inr e ↦ ground (arith, e, picked-beats c rs (ground (arith, e, p)) h.1)
  ]

  module _ (gap : ℕ) (excl : List String) where
    -- The three ways of one pass.
    fill-skips :
        (c : Ranked F) (rs picks : List (Ranked F)) (seen : List String)
        → (mem (code c) excl || mem (code c) seen) ≡ true
        → fill gap excl (c ∷ rs) picks seen ≡ fill gap excl rs picks seen
    unfolding fill
    fill-skips c rs picks seen e = rw (e, fill) refl

    fill-stops :
        (c : Ranked F) (rs picks : List (Ranked F)) (seen : List String)
        → (mem (code c) excl || mem (code c) seen) ≡ false
        → leb gap (length (picks ++ (c ∷ []))) ≡ true
        → fill gap excl (c ∷ rs) picks seen ≡ picks ++ (c ∷ [])
    unfolding fill
    fill-stops c rs picks seen e f = rw (e, f, fill) refl

    fill-takes :
        (c : Ranked F) (rs picks : List (Ranked F)) (seen : List String)
        → (mem (code c) excl || mem (code c) seen) ≡ false
        → leb gap (length (picks ++ (c ∷ []))) ≡ false
        → fill gap excl (c ∷ rs) picks seen ≡ fill gap excl rs (picks ++ (c ∷ [])) (code c ∷ seen)
    unfolding fill
    fill-takes c rs picks seen e f = rw (e, f, fill) refl

    -- The loop only adds picks.
    fill-any :
        (p : Ranked F → Bool) (rs picks : List (Ranked F)) (seen : List String)
        → any p picks ≡ true
        → any p (fill gap excl rs picks seen) ≡ true
    unfolding fill
    fill-any p [] picks seen h = h
    fill-any p (c ∷ rs) picks seen h =
        let grown : any p (picks ++ (c ∷ [])) ≡ true =
          ground (arith, h, any-append p picks (c ∷ [])) in
        elim (Bool-cases (mem (code c) excl || mem (code c) seen)) [
          | inl e ↦ rw (e, fill) (fill-any p rs picks seen h)
          | inr e ↦
              rw (e, fill)
                (elim (Bool-cases (leb gap (length (picks ++ (c ∷ []))))) [
                  | inl f ↦ rw f grown
                  | inr f ↦ rw f (fill-any p rs _ _ grown)
                ])
        ]

    module _ (h : IsWeakOrder worse) where
      appended-beats :
          (c : Ranked F) (picks : List (Ranked F)) → any (beats c) (picks ++ (c ∷ [])) ≡ true
      appended-beats c picks = ground (
        arith,
        any-append (beats c) picks (c ∷ []),
        h.asymmetric c c,
        str_eq_iff (code c) (code c),
      )

      skipped-IsSettled :
          (c : Ranked F) (rs picks : List (Ranked F)) (seen : List String)
          → (mem (code c) excl || mem (code c) seen) ≡ true
          → IsSeen seen picks
          → NoneWorse picks c
          → IsSettled gap excl (fill gap excl rs picks seen) c
      skipped-IsSettled c rs picks seen e s b = elim (Bool-cases (mem (code c) excl)) [
        | inl x ↦ excluded x
        | inr x ↦
            let taken : picked (code c) picks ≡ true = ground (arith, x, e, s (code c)) in
            represented (fill-any (beats c) rs picks seen (picked-beats c picks taken b))
      ]

      fill-IsSettled :
          (rs picks : List (Ranked F)) (seen : List String)
          → IsDescending worse rs
          → IsSeen seen picks
          → ((c : Ranked F) → Mem c rs → NoneWorse picks c)
          → length picks < gap
          → All (IsSettled gap excl (fill gap excl rs picks seen)) rs
      unfolding fill
      fill-IsSettled [] picks seen d s b l = tt
      fill-IsSettled (c ∷ rs) picks seen (Pairwise.cons below d) s b l =
          let grown : (r : Ranked F) → Mem r rs → NoneWorse (picks ++ (c ∷ [])) r =
            λ r m. All-append _ picks (c ∷ []) (b r (mem-cons_of_mem c m)) (below r m, tt) in
          let settled : List (Ranked F) → Type 0 = λ out. All (IsSettled gap excl out) (c ∷ rs) in
          elim (Bool-cases (mem (code c) excl || mem (code c) seen)) [
            | inl e ↦ subst settled (sym (fill-skips c rs picks seen e)) (
              skipped-IsSettled c rs picks seen e s (b c mem-cons_self),
              fill-IsSettled rs picks seen d s (λ r m. b r (mem-cons_of_mem c m)) l,
            )
            | inr e ↦ elim (Bool-cases (leb gap (length (picks ++ (c ∷ []))))) [
              | inl f ↦ subst settled (sym (fill-stops c rs picks seen e f)) (
                represented (appended-beats c picks),
                All-of_Mem _ rs
                    λ r m. full (ground (arith, f, l, length-append picks (c ∷ []))) (grown r m),
              )
              | inr f ↦ subst settled (sym (fill-takes c rs picks seen e f)) (
                represented (fill-any (beats c) rs _ _ (appended-beats c picks)),
                fill-IsSettled rs _ _ d (IsSeen-append c seen picks s) grown (ground (arith, f)),
              )
            ]
          ]

module _ (n : Numbers) (laws : OrderLaws n) where
  open n use {F}

  worse-IsWeakOrder : IsWeakOrder (worse n)
  unfolding worse
  worse-IsWeakOrder = then_by-IsWeakOrder (IsKeyOrder-on (λ r. r.provisional_score) laws.floats) (
      then_by-IsWeakOrder (IsKeyOrder-on (λ r. dsr_sort n r.candidate.dsr) laws.floats)
        (IsWeakOrder-on code laws.texts))

  -- `rank_provisional_candidates` is a rearrangement of the annotated eligible candidates in which
  -- no candidate is worse than a later one by the sort keys, when the orders of floats and texts
  -- are lawful.
  rank_provisional_candidates-IsDescending :
      (candidates : List (Candidate F))
      → Perm (rank_provisional_candidates n candidates) (annotated_all n candidates)
        × IsDescending (worse n) (rank_provisional_candidates n candidates)
  unfolding rank_provisional_candidates
  rank_provisional_candidates-IsDescending candidates = (
    sort_descending-Perm (worse n) (annotated_all n candidates),
    sort_descending-IsDescending (worse n) worse-IsWeakOrder _,
  )

  -- When the roster lacks strategies of its floor and the orders of floats and texts are lawful,
  -- every eligible candidate is settled by the picks of `select_roster_fill`: its strategy is
  -- excluded, or a candidate of its strategy that is not worse is picked, or the picks are as many
  -- as the roster lacks and none of them is worse.
  pub select_roster_fill-IsSettled :
      (active floor : ℕ) (candidates : List (Candidate F)) (excl : List String)
      → active < floor
      → All
          (IsSettled
            (worse n)
            (floor - active)
            excl
            (select_roster_fill n active candidates floor excl))
          (annotated_all n candidates)
  unfolding select_roster_fill roster_gap rank_provisional_candidates mem
  select_roster_fill-IsSettled active floor candidates excl l =
      let ranked : IsDescending (worse n) (sort_descending (worse n) (annotated_all n candidates)) =
        sort_descending-IsDescending (worse n) worse-IsWeakOrder _ in
      let short : leb (floor - active) 0 ≡ false = ground arith in
      rw short (
        All-sort_descending _ (worse n) (annotated_all n candidates) (
          fill-IsSettled (worse n) (floor - active) excl worse-IsWeakOrder _ [] [] ranked
            (λ s. refl) (λ c m. tt) (ground (arith, l))))
