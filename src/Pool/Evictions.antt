-- ===== src/Pool/Evictions.antt =====
-- The order of evictions, as a relation, and `_greedy_evictions`.
use research_orchestrator.Pool.Worst.{
  IsWorst, IsKept, is_redundant-IsKept, worst_of-none, worst_of-IsWorst, without-shorter,
}
use research_orchestrator.Prelude.{
  All-map, ℕ, zero, suc, ◌≤◌, ◌<◌, ◌≡◌, refl, String, inl, inr, List, [], ◌∷◌, Option, none, some,
  ltb, length, arith, All, Bool-cases,
}
use research_orchestrator.Prelude.Dict.{Dict}
use research_orchestrator.Prelude.Sorting.{IsWeakOrder}
use research_orchestrator.Numbers.{Numbers}
use research_orchestrator.Pool.Marginal.{Series, Weigher}
use research_orchestrator.Pool.{without, worst_of, evictions, greedy_evictions}

module _ (n : Numbers) (hrp : Weigher n.F) (theta : n.F) where
  open n use {F, lt, le}

  -- A run of evictions: while two members are left, a worst one leaves, and each time all are
  -- measured again; it ends when one is left or none is redundant.
  pub data Evicts : Dict (Series F) → List (String × F) → Type 0 where
    alone : {r : Dict (Series F)} → length r ≤ 1 → Evicts r []
    settled : {r : Dict (Series F)} → All (IsKept n hrp theta r) r → Evicts r []
    evict :
        {r : Dict (Series F)} {w : String × F} {out : List (String × F)}
        → 1 < length r
        → IsWorst n hrp theta r w
        → Evicts (without w.0 r) out
        → Evicts r (w ∷ out)

  module _ (laws : IsWeakOrder lt) where
    evictions-Evicts :
        (fuel : ℕ) (r : Dict (Series F)) → length r ≤ fuel → Evicts r (evictions n hrp theta fuel r)
    unfolding evictions
    evictions-Evicts zero r h = alone (omega (arith, h))
    evictions-Evicts (suc fuel) r h = elim (Bool-cases (ltb 1 (length r))) [
      | inl e ↦ rw e (
          chosen _ refl (ground (arith, e)) λ w worst.
            evictions-Evicts fuel (without w.0 r)
              (ground (arith, h, without-shorter w.0 worst.member r worst.stands worst.key)))
      | inr e ↦ rw e (alone (ground (arith, e)))
    ]
      where
        chosen :
            (o : Option (String × F))
            → worst_of n hrp theta r r none ≡ o
            → 1 < length r
            → ((w : String × F)
                → IsWorst n hrp theta r w
                → Evicts (without w.0 r) (evictions n hrp theta fuel (without w.0 r)))
            → Evicts r
                (elim o [ none ↦ [] | some w ↦ w ∷ evictions n hrp theta fuel (without w.0 r) ])
        chosen none f l k = settled (
            All-map _ _ r (is_redundant-IsKept n hrp theta r)
              (worst_of-none n hrp theta r r none f).1)
        chosen (some w) f l k =
            let worst = worst_of-IsWorst n hrp theta laws r w f in evict l worst (k w worst)

    -- `_greedy_evictions` comes to an end, and its evictions are a run: while two members are
    -- left, the one of the lowest marginal contribution among the measurable members at or below
    -- the threshold leaves, and the others are measured again without it; it stops when one
    -- member is left or none is redundant. The order of floats is assumed lawful.
    pub greedy_evictions-Evicts :
        (series_by_key : Dict (Series F))
        → Evicts series_by_key (greedy_evictions n hrp series_by_key theta)
    unfolding greedy_evictions
    greedy_evictions-Evicts series_by_key = evictions-Evicts _ series_by_key (omega arith)
