-- ===== src/Prelude/Sorting.antt =====
-- `list.sort(key=..., reverse=True)`: stable, the greatest first, by a strict order `lt`.
use mathlib.Core.Path.{◌≡◌}
use mathlib.Core.Logic.{inl, inr}
use mathlib.Core.Bool.{Bool, true, false, Bool-set}
use mathlib.Core.List.{List, [], ◌∷◌, Mem, Perm, Pairwise, Pairwise-singleton, forall_mem-cons}
use mathlib.Core.List.Perm
use native.Mathlib.Omega.{arith}
use research_orchestrator.Prelude.Lists.{All}
use research_orchestrator.Prelude.Tests.{if◌then◌else◌, Bool-cases}

-- What a sort needs of its test: it is the strict part of a total preorder.
pub record IsWeakOrder {ℓ} {A : Type ℓ} (lt : A → A → Bool) : Type ℓ where
  pub asymmetric : (a b : A) → lt a b ≡ true → lt b a ≡ false
  pub transitive : (a b c : A) → lt a b ≡ false → lt b c ≡ false → lt a c ≡ false

-- A strict order with the equality that Python compares tuples by.
pub record IsKeyOrder {ℓ} {A : Type ℓ} (lt eq : A → A → Bool) : Type ℓ where
  pub order : IsWeakOrder lt
  pub equal : (a b : A) → eq a b ≡ true → lt a b ≡ false
  pub unequal : (a b : A) → eq a b ≡ false → lt a b ≡ false → lt b a ≡ true
  pub symmetric : (a b : A) → eq a b ≡ eq b a

module _ {ℓ} {A : Type ℓ} where
  -- a tuple (f(a), ...) against (f(b), ...): the first components that differ decide
  unfoldable pub then_by : (lt eq rest : A → A → Bool) → A → A → Bool
  then_by lt eq rest a b = if eq a b then rest a b else lt a b

  -- `x` goes before the elements that are not greater
  unfoldable pub insert_descending : (A → A → Bool) → A → List A → List A
  insert_descending lt x [] = x ∷ []
  insert_descending lt x (y ∷ ys) =
      let rest = insert_descending lt x ys in if lt x y then y ∷ rest else x ∷ y ∷ ys

  unfoldable pub sort_descending : (A → A → Bool) → List A → List A
  sort_descending lt [] = []
  sort_descending lt (x ∷ xs) = insert_descending lt x (sort_descending lt xs)

  -- The greatest first: no element is less than a later one.
  abbrev pub IsDescending : (A → A → Bool) → List A → Type ℓ
  IsDescending lt = Pairwise λ a b. lt a b ≡ false

  insert_descending-Perm :
      (lt : A → A → Bool) (x : A) (xs : List A) → Perm (insert_descending lt x xs) (x ∷ xs)
  unfolding insert_descending
  insert_descending-Perm lt x [] = Perm.rfl
  insert_descending-Perm lt x (y ∷ ys) = elim (Bool-cases (lt x y)) [
    | inl e ↦ rw e (Perm.trans (Perm.cons y (insert_descending-Perm lt x ys)) (Perm.swap x y ys))
    | inr e ↦ rw e Perm.rfl
  ]

  pub sort_descending-Perm : (lt : A → A → Bool) (xs : List A) → Perm (sort_descending lt xs) xs
  unfolding sort_descending
  sort_descending-Perm lt [] = Perm.rfl
  sort_descending-Perm lt (x ∷ xs) =
      Perm.trans (insert_descending-Perm lt x _) (Perm.cons x (sort_descending-Perm lt xs))

  module _ (lt : A → A → Bool) (h : IsWeakOrder lt) where
    insert_descending-IsDescending :
        (x : A) {xs : List A} → IsDescending lt xs → IsDescending lt (insert_descending lt x xs)
    unfolding insert_descending
    insert_descending-IsDescending x Pairwise.nil = Pairwise-singleton _ x
    insert_descending-IsDescending x (Pairwise.cons {a = y} {l = ys} below s) =
        elim (Bool-cases (lt x y)) [
          | inl e ↦ rw e (Pairwise.cons (above e) (insert_descending-IsDescending x s))
          | inr e ↦ rw e (Pairwise.cons (under e) (Pairwise.cons below s))
        ]
      where
        above : lt x y ≡ true → (z : A) → Mem z (insert_descending lt x ys) → lt y z ≡ false
        above e z m =
            (forall_mem-cons λ w. Bool-set _ _).1 (h.asymmetric x y e, below) z
              ((Perm.mem_iff (insert_descending-Perm lt x ys)).0 m)

        under : lt x y ≡ false → (z : A) → Mem z (y ∷ ys) → lt x z ≡ false
        under e = (forall_mem-cons λ w. Bool-set _ _).1 (e, λ z m. h.transitive x y z e (below z m))

    pub sort_descending-IsDescending : (xs : List A) → IsDescending lt (sort_descending lt xs)
    unfolding sort_descending
    sort_descending-IsDescending [] = Pairwise.nil
    sort_descending-IsDescending (x ∷ xs) =
        insert_descending-IsDescending x (sort_descending-IsDescending xs)

  pub then_by-IsWeakOrder :
      {lt eq rest : A → A → Bool}
      → IsKeyOrder lt eq
      → IsWeakOrder rest
      → IsWeakOrder (then_by lt eq rest)
  unfolding then_by
  then_by-IsWeakOrder {lt} {eq} {rest} k r = record {
    asymmetric = λ a b e. ground (
      arith,
      k.equal a b,
      k.unequal a b,
      k.symmetric a b,
      r.asymmetric a b,
      k.order.asymmetric a b,
    );
    transitive = λ a b c d e. ground (
      arith,
      k.equal a b,
      k.equal b c,
      k.equal a c,
      k.equal b a,
      k.equal c b,
      k.equal c a,
      k.symmetric a b,
      k.symmetric b c,
      k.symmetric a c,
      r.transitive a b c,
      k.order.transitive a b c,
      k.order.transitive c b a,
      k.order.transitive b c a,
      k.order.transitive b a c,
      k.order.transitive c a b,
      k.order.transitive a c b,
      k.unequal a b,
      k.unequal b c,
      k.unequal a c,
    );
  }

module _ {ℓ κ} {A : Type ℓ} (P : A → Type κ) (lt : A → A → Bool) where
  insert_descending-All : (x : A) (xs : List A) → P x → All P xs → All P (insert_descending lt x xs)
  unfolding insert_descending
  insert_descending-All x [] p h = (p, h)
  insert_descending-All x (y ∷ ys) p h = elim (Bool-cases (lt x y)) [
    | inl e ↦ rw e (h.0, insert_descending-All x ys p h.1)
    | inr e ↦ rw e (p, h)
  ]

  pub sort_descending-All : (xs : List A) → All P xs → All P (sort_descending lt xs)
  unfolding sort_descending
  sort_descending-All [] h = h
  sort_descending-All (x ∷ xs) h = insert_descending-All x _ h.0 (sort_descending-All xs h.1)

  All-insert_descending : (x : A) (xs : List A) → All P (insert_descending lt x xs) → P x × All P xs
  unfolding insert_descending
  All-insert_descending x [] = λ h. h
  All-insert_descending x (y ∷ ys) = elim (Bool-cases (lt x y)) [
    | inl e ↦ rw e λ h. let (p, rest) = All-insert_descending x ys h.1 in (p, (h.0, rest))
    | inr e ↦ rw e λ h. h
  ]

  pub All-sort_descending : (xs : List A) → All P (sort_descending lt xs) → All P xs
  unfolding sort_descending
  All-sort_descending [] h = h
  All-sort_descending (x ∷ xs) h =
      let (p, rest) = All-insert_descending x _ h in (p, All-sort_descending xs rest)
