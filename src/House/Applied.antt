-- ===== src/House/Applied.antt =====
-- What a sync of the house book does to the rows of the table.
use research_orchestrator.Prelude.{
  ℕ, String, Bool, ◌≡◌, refl, sym, subst, ◌∙◌, List, [], ◌∷◌, Option, none, some, select, All,
  All-map, Option-cases, Bool-cases, inl, inr,
}
use research_orchestrator.Prelude.Updates.{IsKeyed, update_where-guarded, update_where-guards}
use research_orchestrator.Numbers.{Numbers}
use research_orchestrator.House.{
  PoolRow, BookRow, ToSync, Plan, active_members, member_key, live_row, with_row, placed,
  classified, classify_book, reconcile_plan, synced, zeroed, sync_all, zero_all, apply_sync,
}
use research_orchestrator.House.Foreign.{
  is_foreign, id_of, IsOwn, synced-is_foreign, zeroed-is_foreign, classified-IsOwn, to_zero-IsOwn,
  members-All,
}

module _ {F : Type 0} (key_of : String → String → String → String) where
  placed-to_zero :
      (m : PoolRow F) (o : Option F) (live : List (BookRow F)) (plan : Plan F)
      → (placed key_of m o live plan).to_zero ≡ plan.to_zero
  unfolding placed with_row
  placed-to_zero m none live plan = refl
  placed-to_zero m (some w) live plan =
      elim (Option-cases (live_row key_of (member_key key_of m) live)) [
        | inl e ↦ rw e refl
        | inr e ↦ rw e.1 refl
      ]

  classified-to_zero :
      (ms : List (PoolRow F)) (live : List (BookRow F)) (plan : Plan F)
      → (classified key_of ms live plan).to_zero ≡ plan.to_zero
  unfolding classified
  classified-to_zero [] live plan = refl
  classified-to_zero (m ∷ ms) live plan =
      placed-to_zero m m.pool_weight live (classified key_of ms live plan)
      ∙ classified-to_zero ms live plan

module _ (n : Numbers) (key_of : String → String → String → String) (account : String)
    (members : List (PoolRow n.F)) where
  open n use {F}

  module _ (agent : String) (now : ℕ) where
    sync_all-foreign :
        (to_sync : List (ToSync F)) (to_zero rows : List (BookRow F))
        → All (λ s. IsOwn n key_of account members rows s.row) to_sync
        → All (IsOwn n key_of account members rows) to_zero
        → (select (is_foreign n key_of account members) (sync_all n key_of agent now to_sync rows)
            ≡ select (is_foreign n key_of account members) rows)
          × All (IsOwn n key_of account members (sync_all n key_of agent now to_sync rows)) to_zero
    unfolding sync_all
    sync_all-foreign [] to_zero rows h z = (refl, z)
    sync_all-foreign (s ∷ ss) to_zero rows h z =
        let keeps = synced-is_foreign n key_of account members s.weight agent now in
        let moved = λ (r : BookRow F) (own : IsOwn n key_of account members rows r).
          update_where-guards id_of (is_foreign n key_of account members)
            (synced n key_of s.weight agent now) keeps (λ x. unfold synced in refl) (id_of s.row)
            (id_of r) rows h.0 own in
        let (same, left) =
          sync_all-foreign ss to_zero _ (All-map _ _ ss (λ t own. moved t.row own) h.1)
            (All-map _ _ to_zero moved z) in
        (
          same
              ∙ update_where-guarded id_of (is_foreign n key_of account members)
                  (synced n key_of s.weight agent now) keeps (id_of s.row) rows h.0,
          left,
        )

    zero_all-foreign :
        (to_zero rows : List (BookRow F))
        → All (IsOwn n key_of account members rows) to_zero
        → select (is_foreign n key_of account members) (zero_all n key_of agent now to_zero rows)
          ≡ select (is_foreign n key_of account members) rows
    unfolding zero_all
    zero_all-foreign [] rows z = refl
    zero_all-foreign (r ∷ rs) rows z =
        let keeps = zeroed-is_foreign n key_of account members agent now in
        zero_all-foreign rs _ (
          All-map _ _ rs
            (λ t own.
              update_where-guards id_of (is_foreign n key_of account members)
                (zeroed n key_of agent now) keeps (λ x. unfold zeroed in refl) (id_of r) (id_of t)
                rows z.0 own)
            z.1)
        ∙ update_where-guarded id_of (is_foreign n key_of account members)
            (zeroed n key_of agent now) keeps (id_of r) rows z.0

module _ (n : Numbers) (key_of : String → String → String → String) (account agent : String)
    (dry_run : Bool) (now : ℕ) (pool : List (PoolRow n.F)) (rows : List (BookRow n.F)) where
  -- In a table with distinct ids, `apply_sync` leaves alone every row of another account, every
  -- deleted row, and every row of the account that stands for no active member of the pool and
  -- that the book has never written: those rows are the same, in the same order.
  pub apply_sync-foreign :
      IsKeyed id_of rows
      → select
          (is_foreign n key_of account (active_members key_of pool))
          (apply_sync n key_of account agent dry_run now pool rows).rows
        ≡ select (is_foreign n key_of account (active_members key_of pool)) rows
  unfolding apply_sync reconcile_plan classify_book
  apply_sync-foreign keyed = elim (Bool-cases dry_run) [
    | inl d ↦ rw d refl
    | inr d ↦
        let members = active_members key_of pool in
        let (same, left) =
          sync_all-foreign n key_of account members agent now _ _ rows
            (classified-IsOwn n key_of account members rows keyed members _
              (members-All n key_of account members) tt)
            (to_zero-IsOwn n key_of account members rows keyed) in
        rw d (
          zero_all-foreign n key_of account members agent now _ _ (
            subst (All (IsOwn n key_of account members (sync_all n key_of agent now _ rows)))
              (sym (classified-to_zero key_of members _ _)) left)
          ∙ same)
  ]
