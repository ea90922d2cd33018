-- ===== src/House/Foreign.antt =====
-- The rows that are not of the house book, and a sync of it.
use research_orchestrator.Prelude.{
  ℕ, String, Bool, true, false, not, ◌&&◌, ◌||◌, ◌≡◌, refl, sym, subst, ◌∙◌, List, [], ◌∷◌, Option,
  none, some, any, ◌⊎◌, select, select-All, All, All-map, All-of_Mem, str_eq, str_eq_iff, arith,
  Bool-cases, inl, inr,
}
use mathlib.Core.Bool.{Bool-set}
use mathlib.Core.Logic.Or
use mathlib.Core.List.{Mem, not-mem-nil, eq-or-mem_of_mem-cons}
use research_orchestrator.Prelude.Updates.{IsKeyed, guards, Mem-guards}
use research_orchestrator.Numbers.{Numbers}
use research_orchestrator.House.{
  PoolRow, BookRow, Plan, is_book_source, is_book_row, book_rows, member_key, row_key, or_final,
  live_row, is_member_key, with_row, placed, classified, is_to_zero, synced, zeroed,
}

any-true :
    {A : Type 0} (p : A → Bool) (xs : List A) (x : A) → Mem x xs → p x ≡ true → any p xs ≡ true
any-true p [] x m h = elim (not-mem-nil m) [ ]
any-true p (y ∷ ys) x m h =
    Or.elim (Bool-set _ _) (eq-or-mem_of_mem-cons m)
      (λ q. let it : p y ≡ true = subst (λ z. p z ≡ true) q h in ground (arith, it))
      (λ t. ground (arith, any-true p ys x t h))

abbrev pub id_of : {F : Type 0} → BookRow F → ℕ
id_of r = r.account_strategy_id

module _ (n : Numbers) (key_of : String → String → String → String) (account : String)
    (members : List (PoolRow n.F)) where
  open n use {F}

  -- A row of another account, a deleted one, or one that stands for no active member and that the
  -- book has never written.
  abbrev pub is_foreign : BookRow F → Bool
  is_foreign r =
      not (str_eq r.account_id account)
      || r.is_deleted
      || (not (is_member_key key_of members (row_key key_of r))
          && not (is_book_source r.weight_source))

  pub synced-is_foreign :
      (w : F) (agent : String) (now : ℕ) (r : BookRow F)
      → is_foreign r ≡ false
      → is_foreign (synced n key_of w agent now r) ≡ false
  unfolding synced is_book_source row_key
  synced-is_foreign w agent now r h = ground (arith, h)

  pub zeroed-is_foreign :
      (agent : String) (now : ℕ) (r : BookRow F)
      → is_foreign r ≡ false
      → is_foreign (zeroed n key_of agent now r) ≡ false
  unfolding zeroed is_book_source row_key
  zeroed-is_foreign agent now r h = ground (arith, h)

  -- What is known of the targets of the updates.
  abbrev pub IsOwn : List (BookRow F) → BookRow F → Type 0
  IsOwn rows r = any (guards id_of is_foreign (id_of r)) rows ≡ false

  -- A found row is the first of the table, and has the key, or is found in the rest.
  live_row-cases :
      (k : String) (x r : BookRow F) (xs : List (BookRow F))
      → live_row key_of k (x ∷ xs) ≡ some r
      → ((x ≡ r) × (str_eq (row_key key_of x) k ≡ true)) ⊎ (live_row key_of k xs ≡ some r)
  unfolding live_row or_final
  live_row-cases k x r xs h = elim (Bool-cases (str_eq (row_key key_of x) k)) [
    | inl e ↦ chosen e (live_row key_of k xs) refl (rw e at h)
    | inr e ↦ inr (rw e at h)
  ]
    where
      chosen :
          str_eq (row_key key_of x) k ≡ true
          → (o : Option (BookRow F)) → live_row key_of k xs ≡ o
          → some (or_final key_of x o) ≡ some r
          → ((x ≡ r) × (str_eq (row_key key_of x) k ≡ true)) ⊎ (live_row key_of k xs ≡ some r)
      chosen e none f h = inl (ground (arith, h), e)
      chosen e (some later) f h = inr (f ∙ h)

  live_row-empty : (k : String) (r : BookRow F) → live_row key_of k [] ≡ some r → ⊥
  unfolding live_row
  live_row-empty k r h = ground (arith, h)

  live_row-All :
      (Q : BookRow F → Type 0) (k : String) (live : List (BookRow F)) (r : BookRow F)
      → All Q live
      → live_row key_of k live ≡ some r
      → Q r × (str_eq (row_key key_of r) k ≡ true)
  live_row-All Q k [] r q h = elim (live_row-empty k r h) [ ]
  live_row-All Q k (x ∷ xs) r q h = elim (live_row-cases k x r xs h) [
    | inl e ↦ (subst Q e.0 q.0, subst (λ y. str_eq (row_key key_of y) k ≡ true) e.0 e.1)
    | inr f ↦ live_row-All Q k xs r q.1 f
  ]

  -- A live row of an active member is not foreign.
  member-is_foreign :
      (r : BookRow F) (k : String)
      → is_book_row key_of account r ≡ true
      → is_member_key key_of members k ≡ true
      → str_eq (row_key key_of r) k ≡ true
      → is_foreign r ≡ false
  unfolding is_book_row
  member-is_foreign r k b m e =
      let same : is_member_key key_of members (row_key key_of r) ≡ true =
        subst (λ t. is_member_key key_of members t ≡ true)
          (sym ((str_eq_iff (row_key key_of r) k).0 e)) m in
      ground (arith, b, same)

  -- A row to be zeroed is not foreign.
  zero-is_foreign :
      (r : BookRow F)
      → is_book_row key_of account r ≡ true
      → is_to_zero n key_of members r ≡ true
      → is_foreign r ≡ false
  unfolding is_book_row is_to_zero
  zero-is_foreign r b z = ground (arith, b, z)

  module _ (rows : List (BookRow F)) (keyed : IsKeyed id_of rows) where
    -- a row of the table that belongs to the account's book
    abbrev IsLive : BookRow F → Type 0
    IsLive r = Mem r rows × (is_book_row key_of account r ≡ true)

    book_rows-IsLive : All IsLive (book_rows key_of account rows)
    unfolding book_rows
    book_rows-IsLive =
        select-All (λ r. Mem r rows) (is_book_row key_of account) rows (All-of_Mem _ rows λ r m. m)

    own : (r : BookRow F) → Mem r rows → is_foreign r ≡ false → IsOwn rows r
    own r m g = Mem-guards id_of is_foreign rows r keyed m g

    pub to_zero-IsOwn :
        All (IsOwn rows) (select (is_to_zero n key_of members) (book_rows key_of account rows))
    to_zero-IsOwn =
        All-map _ _ _ (λ r p. own r p.0.0 (zero-is_foreign r p.0.1 p.1))
          (select-All IsLive (is_to_zero n key_of members) _ book_rows-IsLive)

    with_row-IsOwn :
        (m : PoolRow F) (w : F) (o : Option (BookRow F)) (plan : Plan F)
        → is_member_key key_of members (member_key key_of m) ≡ true
        → All (λ s. IsOwn rows s.row) plan.to_sync
        → live_row key_of (member_key key_of m) (book_rows key_of account rows) ≡ o
        → All (λ s. IsOwn rows s.row) (with_row key_of m w o plan).to_sync
    unfolding with_row
    with_row-IsOwn m w none plan k h f = h
    with_row-IsOwn m w (some r) plan k h f =
        let (live, same) = live_row-All IsLive (member_key key_of m) _ r book_rows-IsLive f in
        (own r live.0 (member-is_foreign r (member_key key_of m) live.1 k same), h)

    placed-IsOwn :
        (m : PoolRow F) (o : Option F) (plan : Plan F)
        → is_member_key key_of members (member_key key_of m) ≡ true
        → All (λ s. IsOwn rows s.row) plan.to_sync
        → All
            (λ s. IsOwn rows s.row)
            (placed key_of m o (book_rows key_of account rows) plan).to_sync
    unfolding placed
    placed-IsOwn m none plan k h = h
    placed-IsOwn m (some w) plan k h = with_row-IsOwn m w _ plan k h refl

    pub classified-IsOwn :
        (some_members : List (PoolRow F)) (plan : Plan F)
        → All (λ m. is_member_key key_of members (member_key key_of m) ≡ true) some_members
        → All (λ s. IsOwn rows s.row) plan.to_sync
        → All
            (λ s. IsOwn rows s.row)
            (classified key_of some_members (book_rows key_of account rows) plan).to_sync
    unfolding classified
    classified-IsOwn [] plan k h = h
    classified-IsOwn (m ∷ ms) plan k h =
        placed-IsOwn m m.pool_weight _ k.0 (classified-IsOwn ms plan k.1 h)

  pub members-All : All (λ m. is_member_key key_of members (member_key key_of m) ≡ true) members
  unfolding is_member_key
  members-All = All-of_Mem _ members λ m t.
      any-true (λ x. str_eq (member_key key_of x) (member_key key_of m)) members m t
        (ground (arith, str_eq_iff (member_key key_of m) (member_key key_of m)))
