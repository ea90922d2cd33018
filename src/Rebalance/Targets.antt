-- ===== src/Rebalance/Targets.antt =====
-- The rows that are no targets of a rebalance, and the ids of its targets.
use research_orchestrator.Prelude.{
  str_eq, ◌||◌, ℕ, String, Bool, true, false, not, ◌&&◌, ◌≡◌, refl, sym, subst, List, [], ◌∷◌, any,
  select, ◌==◌, ==_iff, arith,
}
use mathlib.Core.Bool.{Bool-set}
use mathlib.Core.Logic.Or
use mathlib.Core.List.{Mem, not-mem-nil, eq-or-mem_of_mem-cons}
use research_orchestrator.Rebalance.Notional.{AccountStrategy}
use research_orchestrator.Rebalance.Book.{mem, is_target}

module _ {F : Type 0} where
  abbrev pub has_id : ℕ → AccountStrategy F → Bool
  has_id id r = r.account_strategy_id == id

  -- No two rows have one id.
  abbrev pub IsKeyed : List (AccountStrategy F) → Type 0
  IsKeyed [] = Unit
  IsKeyed (r ∷ rs) = (any (has_id r.account_strategy_id) rs ≡ false) × IsKeyed rs

  any-Mem :
      (p : AccountStrategy F → Bool) (rows : List (AccountStrategy F)) (r : AccountStrategy F)
      → Mem r rows
      → any p rows ≡ false
      → p r ≡ false
  any-Mem p [] r m h = elim (not-mem-nil m) [ ]
  any-Mem p (x ∷ xs) r m h =
      Or.elim (Bool-set _ _) (eq-or-mem_of_mem-cons m)
        (λ q. subst (λ y. p y ≡ false) (sym q) (ground (arith, h)))
        (λ t. any-Mem p xs r t (ground (arith, h)))

-- A row of another account or strategy, one that is disabled, deleted or simulated, or one that the
-- operator weighs by hand.
abbrev pub is_protected : {F : Type 0} → List String → String → AccountStrategy F → Bool
is_protected codes account r =
    not (str_eq r.account_id account)
    || not (mem r.strategy_code codes)
    || not r.enabled
    || r.is_deleted
    || r.simulated
    || str_eq r.weight_source "MANUAL"

module _ {F : Type 0} (codes : List String) (account : String) where
  -- The rows that a rebalance of an account must leave alone.
  abbrev pub protected : List (AccountStrategy F) → List (AccountStrategy F)
  protected rows = select (λ r. is_protected codes account r) rows

  -- A protected row of the id.
  abbrev pub holds : ℕ → AccountStrategy F → Bool
  holds id r = has_id id r && is_protected codes account r

  holds-has_id :
      (id : ℕ) (rows : List (AccountStrategy F))
      → any (has_id id) rows ≡ false
      → any (holds id) rows ≡ false
  holds-has_id id [] h = refl
  holds-has_id id (r ∷ rs) h = ground (arith, h, holds-has_id id rs (ground (arith, h)))

  target-is_protected :
      (r : AccountStrategy F)
      → is_target codes account r ≡ true
      → is_protected codes account r ≡ false
  unfolding is_target
  target-is_protected r t = ground (arith, t)

  -- No protected row has the id of a target.
  pub target-holds :
      (rows : List (AccountStrategy F)) (r : AccountStrategy F)
      → IsKeyed rows
      → Mem r rows
      → is_target codes account r ≡ true
      → any (holds r.account_strategy_id) rows ≡ false
  target-holds [] r k m t = refl
  target-holds (x ∷ xs) r k m t =
      Or.elim (Bool-set _ _) (eq-or-mem_of_mem-cons m)
        (λ q.
          subst (λ y. any (holds y.account_strategy_id) (x ∷ xs) ≡ false) (sym q)
            (let it : is_target codes account x ≡ true =
                subst (λ y. is_target codes account y ≡ true) q t in
              ground (arith, target-is_protected x it, holds-has_id x.account_strategy_id xs k.0)))
        (λ m₂.
          let other : (r.account_strategy_id == x.account_strategy_id) ≡ false =
            any-Mem (has_id x.account_strategy_id) xs r m₂ k.0 in
          ground (
            arith,
            target-holds xs r k.1 m₂ t,
            other,
            ==_iff r.account_strategy_id x.account_strategy_id,
            ==_iff x.account_strategy_id r.account_strategy_id,
          ))
