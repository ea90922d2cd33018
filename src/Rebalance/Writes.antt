-- ===== src/Rebalance/Writes.antt =====
-- What a rebalance writes, and to which rows.
use research_orchestrator.Prelude.{
  ℕ, String, Bool, true, false, ◌≡◌, refl, ◌∙◌, List, [], ◌∷◌, ◌++◌, Option, none, some, any,
  select, select-All, All, All-of_Mem, All-map, arith,
}
use research_orchestrator.Prelude.Dict.{Dict, lookup}
use mathlib.Core.List.{Mem}
use research_orchestrator.Numbers.{Numbers}
use research_orchestrator.Rebalance.Notional.{AccountStrategy, Violation}
use research_orchestrator.Rebalance.Book.{
  Optimizer, hrp, equal, mean_variance, name_of, Entry, nothing_eligible, below_min_notional_floor,
  done, Outcome, Request, Reads, mem, is_target, reweighted, update_weight, finite, write_one,
  write_weights, entry_of, concluded, with_codes, rebalance_book,
}
use research_orchestrator.Rebalance.Targets.{is_protected, IsKeyed, holds, protected, target-holds}

module _ (n : Numbers) (codes : List String) (account : String) where
  open n use {F}

  -- A row that is not protected is not so under its new weight.
  reweighted-is_protected :
      (w : F) (optimizer : Optimizer) (now : ℕ) (r : AccountStrategy F)
      → is_protected codes account r ≡ false
      → is_protected codes account (reweighted n w optimizer now r) ≡ false
  unfolding reweighted name_of
  reweighted-is_protected w hrp now r h = ground (arith, h)
  reweighted-is_protected w equal now r h = ground (arith, h)
  reweighted-is_protected w mean_variance now r h = ground (arith, h)

  module _ (w : F) (optimizer : Optimizer) (now : ℕ) where
    update_weight-protected :
        (id : ℕ) (rows : List (AccountStrategy F))
        → any (holds codes account id) rows ≡ false
        → protected codes account (update_weight n id w optimizer now rows)
          ≡ protected codes account rows
    unfolding update_weight select
    update_weight-protected id [] h = refl
    update_weight-protected id (r ∷ rs) h = ground (
      arith,
      h,
      reweighted-is_protected w optimizer now r,
      update_weight-protected id rs (ground (arith, h)),
    )

    update_weight-holds :
        (id other : ℕ) (rows : List (AccountStrategy F))
        → any (holds codes account id) rows ≡ false
        → any (holds codes account other) rows ≡ false
        → any (holds codes account other) (update_weight n id w optimizer now rows) ≡ false
    unfolding update_weight
    update_weight-holds id other [] h k = refl
    update_weight-holds id other (r ∷ rs) h k = ground (
      arith,
      h,
      k,
      reweighted-is_protected w optimizer now r,
      update_weight-holds id other rs (ground (arith, h)) (ground (arith, k)),
    )

  -- The ids of the targets that are left are not those of protected rows.
  abbrev Clear : List (AccountStrategy F) → List (AccountStrategy F) → Type 0
  Clear rows targets =
      All (λ r. any (holds codes account r.account_strategy_id) rows ≡ false) targets

  module _ (weights : Dict F) (optimizer : Optimizer) (now : ℕ) where
    write_one-Clear :
        (r : AccountStrategy F) (o : Option F) (targets : List (AccountStrategy F))
        (written : List (AccountStrategy F) × ℕ)
        → any (holds codes account r.account_strategy_id) written.0 ≡ false
        → Clear written.0 targets
        → Clear (write_one n r o optimizer now written).0 targets
    unfolding write_one
    write_one-Clear r none targets written h k = k
    write_one-Clear r (some w) targets written h k =
        All-map _ _ targets
          (λ t.
            update_weight-holds w optimizer now r.account_strategy_id t.account_strategy_id
              written.0 h)
          k

    write_one-protected :
        (r : AccountStrategy F) (o : Option F) (written : List (AccountStrategy F) × ℕ)
        → any (holds codes account r.account_strategy_id) written.0 ≡ false
        → protected codes account (write_one n r o optimizer now written).0
          ≡ protected codes account written.0
    unfolding write_one
    write_one-protected r none written h = refl
    write_one-protected r (some w) written h =
        update_weight-protected w optimizer now r.account_strategy_id written.0 h

    write_weights-protected :
        (targets : List (AccountStrategy F)) (written : List (AccountStrategy F) × ℕ)
        → Clear written.0 targets
        → protected codes account (write_weights n targets weights optimizer now written).0
          ≡ protected codes account written.0
    unfolding write_weights
    write_weights-protected [] written k = refl
    write_weights-protected (r ∷ targets) written k =
        write_weights-protected targets _
          (write_one-Clear r (finite n (lookup r.strategy_code weights)) targets written k.0 k.1)
        ∙ write_one-protected r (finite n (lookup r.strategy_code weights)) written k.0

  targets-Clear :
      (chosen : List String) (rows : List (AccountStrategy F))
      → IsKeyed rows
      → Clear rows
          (select (λ r. mem r.strategy_code chosen) (select (is_target codes account) rows))
  targets-Clear chosen rows k =
      All-map _ _ _ (λ r p. p.0)
        (select-All _ (λ r. mem r.strategy_code chosen) _
          (All-map _ _ _ (λ r p. target-holds codes account rows r k p.0 p.1)
            (select-All (λ r. Mem r rows) (is_target codes account) rows
              (All-of_Mem _ rows λ r m. m))))

module _ (n : Numbers) (q : Request n.F) where
  open n use {F}

  -- What a rebalance may come to: nothing at all, or one new journal row that says what happened;
  -- only an applied one has other rows, and those that it must leave alone are the same.
  pub data IsAudited (rows : List (AccountStrategy F)) (journal : List Entry)
      : Outcome F → Type 0 where
    idle :
        IsAudited rows journal
          (record { rows = rows; journal = journal; answer = nothing_eligible })
    previewed :
        (weights : Dict F)
        → q.dry_run ≡ true
        → IsAudited rows journal (record {
          rows = rows;
          journal = journal ++ (entry_of n q false 0 ∷ []);
          answer = done false 0 weights;
        })
    blocked :
        (v : Violation F) (vs : List (Violation F))
        → q.dry_run ≡ false
        → IsAudited rows journal (record {
          rows = rows;
          journal = journal ++ (entry_of n q true 0 ∷ []);
          answer = below_min_notional_floor (v ∷ vs);
        })
    written :
        (after : List (AccountStrategy F)) (count : ℕ) (weights : Dict F)
        → q.dry_run ≡ false
        → protected q.strategy_codes q.account_id after
          ≡ protected q.strategy_codes q.account_id rows
        → IsAudited rows journal (record {
          rows = after;
          journal = journal ++ (entry_of n q false count ∷ []);
          answer = done true count weights;
        })

  module _ (reads : Reads n) (rows : List (AccountStrategy F)) (journal : List Entry) where
    concluded-IsAudited :
        (written_rows : List (AccountStrategy F) × ℕ) (weights : Dict F)
        → protected q.strategy_codes q.account_id written_rows.0
          ≡ protected q.strategy_codes q.account_id rows
        → (dry_run : Bool) → q.dry_run ≡ dry_run
        → (violations : List (Violation F))
        → IsAudited rows journal
            (concluded n q written_rows weights rows journal dry_run violations)
    unfolding concluded
    concluded-IsAudited w weights p true d violations = previewed weights d
    concluded-IsAudited w weights p false d [] = written w.0 w.1 weights d p
    concluded-IsAudited w weights p false d (v ∷ vs) = blocked v vs d

    with_codes-IsAudited :
        (codes : List String)
        → IsKeyed rows
        → IsAudited rows journal (
            with_codes n q reads
              (select (is_target q.strategy_codes q.account_id) rows)
              codes
              rows
              journal)
    unfolding with_codes
    with_codes-IsAudited [] k = idle
    with_codes-IsAudited (c ∷ codes) k =
        concluded-IsAudited _ _
          (write_weights-protected n q.strategy_codes q.account_id _ q.optimizer reads.now _
            (rows, 0) (targets-Clear n q.strategy_codes q.account_id (c ∷ codes) rows k))
          q.dry_run refl _

    -- In a table with distinct ids, `rebalance_book` either finds nothing eligible and changes
    -- nothing, or adds exactly one journal row, of what it did: a dry run and a refusal by the
    -- floor change no weight, and an applied run leaves as they were the rows of other accounts
    -- and strategies, the disabled, deleted and simulated ones, and those weighed by hand.
    pub rebalance_book-IsAudited :
        IsKeyed rows → IsAudited rows journal (rebalance_book n q reads rows journal)
    unfolding rebalance_book
    rebalance_book-IsAudited k = with_codes-IsAudited _ k
