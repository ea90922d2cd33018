-- ===== src/Prelude/Updates.antt =====
-- UPDATE ... WHERE id = k on a table, and the rows that a run of updates leaves alone.
use mathlib.Core.Path.{◌≡◌, refl, sym, subst}
use mathlib.Core.Bool.{Bool, false, ◌&&◌, Bool-set}
use mathlib.Core.Logic.Or
use mathlib.Core.List.{List, [], ◌∷◌, Mem, not-mem-nil, eq-or-mem_of_mem-cons}
use Prim.Native.Nat.{ℕ}
use native.Mathlib.Omega.{arith}
use research_orchestrator.Prelude.Lists.{any, select}
use research_orchestrator.Prelude.Tests.{if◌then◌else◌, ◌==◌, ==_iff}

module _ {ℓ} {A : Type ℓ} (id : A → ℕ) where
  unfoldable pub update_where : ℕ → (A → A) → List A → List A
  update_where k f [] = []
  update_where k f (x ∷ xs) =
      let rest = update_where k f xs in if id x == k then f x ∷ rest else x ∷ rest

  abbrev pub holds_key : ℕ → A → Bool
  holds_key k x = id x == k

  -- No two rows have one id.
  abbrev pub IsKeyed : List A → Type 0
  IsKeyed [] = Unit
  IsKeyed (x ∷ xs) = (any (holds_key (id x)) xs ≡ false) × IsKeyed xs

  any-false : (p : A → Bool) (xs : List A) (x : A) → Mem x xs → any p xs ≡ false → p x ≡ false
  any-false p [] x m h = elim (not-mem-nil m) [ ]
  any-false p (y ∷ ys) x m h =
      Or.elim (Bool-set _ _) (eq-or-mem_of_mem-cons m)
        (λ q. subst (λ z. p z ≡ false) (sym q) (ground (arith, h)))
        (λ t. any-false p ys x t (ground (arith, h)))

  module _ (guarded : A → Bool) where
    -- A guarded row of the id.
    abbrev pub guards : ℕ → A → Bool
    guards k x = holds_key k x && guarded x

    guards-holds_key :
        (k : ℕ) (xs : List A) → any (holds_key k) xs ≡ false → any (guards k) xs ≡ false
    guards-holds_key k [] h = refl
    guards-holds_key k (x ∷ xs) h = ground (arith, h, guards-holds_key k xs (ground (arith, h)))

    -- No guarded row has the id of a row that is not guarded.
    pub Mem-guards :
        (xs : List A) (x : A)
        → IsKeyed xs
        → Mem x xs
        → guarded x ≡ false
        → any (guards (id x)) xs ≡ false
    Mem-guards [] x k m g = refl
    Mem-guards (y ∷ ys) x k m g =
        Or.elim (Bool-set _ _) (eq-or-mem_of_mem-cons m)
          (λ q.
            subst (λ z. any (guards (id z)) (y ∷ ys) ≡ false) (sym q)
              (let free : guarded y ≡ false = subst (λ z. guarded z ≡ false) q g in
                ground (arith, free, guards-holds_key (id y) ys k.0)))
          (λ t.
            let other : (id x == id y) ≡ false = any-false (holds_key (id y)) ys x t k.0 in
            ground
              (arith, Mem-guards ys x k.1 t g, other, ==_iff (id x) (id y), ==_iff (id y) (id x)))

    module _ (f : A → A) (keeps : (x : A) → guarded x ≡ false → guarded (f x) ≡ false) where
      pub update_where-guarded :
          (k : ℕ) (xs : List A)
          → any (guards k) xs ≡ false
          → select guarded (update_where k f xs) ≡ select guarded xs
      unfolding update_where select
      update_where-guarded k [] h = refl
      update_where-guarded k (x ∷ xs) h =
          ground (arith, h, keeps x, update_where-guarded k xs (ground (arith, h)))

      pub update_where-guards :
          ((x : A) → id (f x) ≡ id x)
          → (k j : ℕ) (xs : List A) → any (guards k) xs ≡ false
          → any (guards j) xs ≡ false
          → any (guards j) (update_where k f xs) ≡ false
      unfolding update_where
      update_where-guards same k j [] h g = refl
      update_where-guards same k j (x ∷ xs) h g = ground (
        arith,
        h,
        g,
        keeps x,
        same x,
        update_where-guards same k j xs (ground (arith, h)) (ground (arith, g)),
      )
