-- ===== src/Pool/Worst.antt =====
-- The inner loop of `_greedy_evictions`: it finds the member that is to leave.
use research_orchestrator.Prelude.{
  All-map, ◌≢◌, ◌≤◌, ◌<◌, ◌≡◌, refl, ap, sym, ◌∙◌, subst, String, Bool, true, false, ◌&&◌, ◌⊎◌, inl,
  inr, [], ◌∷◌, Option, none, some, length, select, str_eq_iff, arith, All, Bool-cases,
}
use mathlib.Core.List.{Mem, mem-cons_self, mem-cons_of_mem, not-mem-nil, eq-or-mem_of_mem-cons}
use mathlib.Core.Logic.Or
use native.Mathlib.Bridge.{le_prop}
use research_orchestrator.Prelude.Dict.{Dict}
use research_orchestrator.Prelude.Sorting.{IsWeakOrder}
use research_orchestrator.Numbers.{Numbers}
use research_orchestrator.Pool.Marginal.{
  Reason, insufficient_overlap, standalone, measured, Series, Weigher,
}
use research_orchestrator.Pool.{
  is_unmeasurable, without, contribution_of, redundant, is_lower, considered, worst_of,
}

without-length : {V : Type 0} (k : String) (d : Dict V) → length (without k d) ≤ length d
unfolding without select
without-length k [] = omega arith
without-length k (e ∷ d) = ground (arith, without-length k d)

-- To remove a key that stands in a dictionary shortens it.
pub without-shorter :
    {V : Type 0} (k : String) (e : String × V) (d : Dict V)
    → Mem e d
    → e.0 ≡ k
    → length (without k d) < length d
unfolding without select
without-shorter k e [] m q = elim (not-mem-nil m) [ ]
without-shorter k e (x ∷ d) m q =
    Or.elim le_prop (eq-or-mem_of_mem-cons m)
      (λ p.
        let same : x.0 ≡ k = sym (ap (λ y. y.0) p) ∙ q in
        ground (arith, same, str_eq_iff x.0 k, without-length k d))
      (λ t. ground (arith, without-shorter k e d t q))

abbrev value_or {ℓ} : {A : Type ℓ} → A → Option A → A
value_or a none = a
value_or a (some b) = b

module _ (n : Numbers) (hrp : Weigher n.F) (theta : n.F) where
  open n use {F, lt, le}

  abbrev margin : Dict (Series F) → String × Series F → F
  margin r e = (contribution_of n hrp r e).marginal

  abbrev pub is_redundant : Dict (Series F) → String × Series F → Bool
  is_redundant r e = redundant n hrp theta (contribution_of n hrp r e)

  -- Nothing speaks against a member: it could not be measured, or it adds more than the threshold.
  abbrev pub IsKept : Dict (Series F) → String × Series F → Type 0
  IsKept r e =
      ((contribution_of n hrp r e).reason ≡ insufficient_overlap) ⊎ (le (margin r e) theta ≡ false)

  -- A redundant member of the lowest marginal contribution among the redundant members.
  pub record IsWorst (r : Dict (Series F)) (w : String × F) : Type 0 where
    pub member : String × Series F
    pub stands : Mem member r
    pub key : member.0 ≡ w.0
    pub contributes : margin r member ≡ w.1
    pub overlaps : (contribution_of n hrp r member).reason ≢ insufficient_overlap
    pub low : le w.1 theta ≡ true
    pub lowest : All (λ e. IsKept r e ⊎ (lt (margin r e) w.1 ≡ false)) r

  is_unmeasurable-cases : (x : Reason) → (x ≡ insufficient_overlap) ⊎ (is_unmeasurable x ≡ false)
  unfolding is_unmeasurable
  is_unmeasurable-cases insufficient_overlap = inl refl
  is_unmeasurable-cases standalone = inr refl
  is_unmeasurable-cases measured = inr refl

  pub is_redundant-IsKept :
      (r : Dict (Series F)) (e : String × Series F) → is_redundant r e ≡ false → IsKept r e
  unfolding redundant
  is_redundant-IsKept r e h = elim (is_unmeasurable-cases (contribution_of n hrp r e).reason) [
    | inl i ↦ inl i
    | inr m ↦ inr (ground (arith, h, m))
  ]

  is_redundant-overlaps :
      (r : Dict (Series F)) (e : String × Series F)
      → is_redundant r e ≡ true
      → (contribution_of n hrp r e).reason ≢ insufficient_overlap
  unfolding redundant is_unmeasurable
  is_redundant-overlaps r e h q = ground (arith, h, q)

  is_redundant-low :
      (r : Dict (Series F)) (e : String × Series F)
      → is_redundant r e ≡ true
      → le (margin r e) theta ≡ true
  unfolding redundant
  is_redundant-low r e h = ground (arith, h)

  not_lower :
      (r : Dict (Series F)) (m : F) (e : String × Series F)
      → (is_redundant r e && lt (margin r e) m) ≡ false
      → IsKept r e ⊎ (lt (margin r e) m ≡ false)
  not_lower r m e h = elim (Bool-cases (is_redundant r e)) [
    | inl q ↦ inr (ground (arith, h, q))
    | inr q ↦ inl (is_redundant-IsKept r e q)
  ]

  pub worst_of-none :
      (r es : Dict (Series F)) (st : Option (String × F))
      → worst_of n hrp theta r es st ≡ none
      → (st ≡ none) × All (λ e. is_redundant r e ≡ false) es
  unfolding worst_of considered is_lower
  worst_of-none r [] st h = (h, tt)
  worst_of-none r (e ∷ es) st h =
      let (kept, rest) = worst_of-none r es _ h in (passes st kept, (quiet st kept, rest))
    where
      passes :
          (o : Option (String × F))
          → considered n hrp theta e.0 (contribution_of n hrp r e) o ≡ none
          → o ≡ none
      passes none k = refl
      passes (some w) k = ground (arith, k)

      quiet :
          (o : Option (String × F))
          → considered n hrp theta e.0 (contribution_of n hrp r e) o ≡ none
          → is_redundant r e ≡ false
      quiet none k = ground (arith, k)
      quiet (some w) k = ground (arith, k)

  -- The worst so far is not below the worst of all.
  abbrev Above : Option (String × F) → F → Type 0
  Above none m = Unit
  Above (some v) m = lt v.1 m ≡ false

  -- A member that stands for `w`.
  record Stands (r es : Dict (Series F)) (w : String × F) : Type 0 where
    pub member : String × Series F
    pub stands : Mem member es
    pub key : member.0 ≡ w.0
    pub contributes : margin r member ≡ w.1
    pub qualifies : is_redundant r member ≡ true

  later :
      (r es : Dict (Series F)) (e : String × Series F) (w : String × F)
      → Stands r es w
      → Stands r (e ∷ es) w
  later r es e w s = record {
    member = s.member;
    stands = mem-cons_of_mem e s.stands;
    key = s.key;
    contributes = s.contributes;
    qualifies = s.qualifies;
  }

  itself :
      (r es : Dict (Series F)) (e : String × Series F) (w : String × F)
      → is_redundant r e ≡ true
      → some (e.0, margin r e) ≡ some w
      → Stands r (e ∷ es) w
  itself r es e w q p = record {
    member = e;
    stands = mem-cons_self;
    key = ap (λ o. (value_or {A = String × F} (e.0, margin r e) o).0) p;
    contributes = ap (λ o. (value_or {A = String × F} (e.0, margin r e) o).1) p;
    qualifies = q;
  }

  module _ (laws : IsWeakOrder lt) where
    record Found (r es : Dict (Series F)) (st : Option (String × F)) (w : String × F) : Type 0 where
      pub lowest : All (λ e. (is_redundant r e && lt (margin r e) w.1) ≡ false) es
      pub above : Above st w.1
      pub source : (st ≡ some w) ⊎ Stands r es w

    -- one pass of the loop in front of the others
    Found-considered :
        (r es : Dict (Series F)) (e : String × Series F) (st : Option (String × F)) (w : String × F)
        → Found r es (considered n hrp theta e.0 (contribution_of n hrp r e) st) w
        → Found r (e ∷ es) st w
    unfolding considered is_lower
    Found-considered r es e none w = elim (Bool-cases (is_redundant r e)) [
      | inl q ↦ rw q λ f. record {
        lowest = (ground (arith, q, f.above), f.lowest);
        above = tt;
        source = inr (elim f.source [ inl p ↦ itself r es e w q p | inr s ↦ later r es e w s ]);
      }
      | inr q ↦ rw q λ f. record {
        lowest = (ground (arith, q), f.lowest);
        above = tt;
        source = elim f.source [ inl p ↦ inl p | inr s ↦ inr (later r es e w s) ];
      }
    ]
    Found-considered r es e (some v) w =
        elim (Bool-cases (is_redundant r e && lt (margin r e) v.1)) [
          | inl q ↦ rw q λ f. record {
            lowest = (ground (arith, q, f.above), f.lowest);
            above = ground (
              arith,
              q,
              f.above,
              laws.asymmetric (margin r e) v.1,
              laws.transitive v.1 (margin r e) w.1,
            );
            source = inr (elim f.source [
              | inl p ↦ itself r es e w (ground (arith, q)) p
              | inr s ↦ later r es e w s
            ]);
          }
          | inr q ↦ rw q λ f. record {
            lowest = (ground (arith, q, f.above, laws.transitive (margin r e) v.1 w.1), f.lowest);
            above = f.above;
            source = elim f.source [ inl p ↦ inl p | inr s ↦ inr (later r es e w s) ];
          }
        ]

    last : (v w : String × F) → some v ≡ some w → lt v.1 w.1 ≡ false
    last v w h =
        subst (λ x. lt v.1 x ≡ false) (ap (λ o. (value_or v o).1) h)
          (ground (arith, laws.asymmetric v.1 v.1))

    worst_of-Found :
        (r es : Dict (Series F)) (st : Option (String × F)) (w : String × F)
        → worst_of n hrp theta r es st ≡ some w
        → Found r es st w
    unfolding worst_of
    worst_of-Found r [] none w h = ground (arith, h)
    worst_of-Found r [] (some v) w h = record { lowest = tt; above = last v w h; source = inl h }
    worst_of-Found r (e ∷ es) st w h = Found-considered r es e st w (worst_of-Found r es _ w h)

    pub worst_of-IsWorst :
        (r : Dict (Series F)) (w : String × F)
        → worst_of n hrp theta r r none ≡ some w
        → IsWorst r w
    worst_of-IsWorst r w h =
        let found = worst_of-Found r r none w h in
        elim found.source [
          | inl p ↦ elim (impossible p) [ ]
          | inr s ↦ record {
            member = s.member;
            stands = s.stands;
            key = s.key;
            contributes = s.contributes;
            overlaps = is_redundant-overlaps r s.member s.qualifies;
            low =
                subst (λ m. le m theta ≡ true) s.contributes
                  (is_redundant-low r s.member s.qualifies);
            lowest = All-map _ _ r (not_lower r w.1) found.lowest;
          }
        ]
      where
        impossible : none ≡ some w → ⊥
        impossible p = ground (arith, p)
