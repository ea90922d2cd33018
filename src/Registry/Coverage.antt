-- ===== src/Registry/Coverage.antt =====
-- A sync of a research result, and the next sync of it.
use research_orchestrator.Prelude.{
  ℕ, String, true, false, ◌≡◌, refl, List, [], ◌∷◌, ◌++◌, Option, none, some, any, ◌==◌, ==_refl,
  str_eq, str_eq_iff, arith, Bool-cases, inl, inr, length, length-append,
}
use research_orchestrator.Registry.Table.{
  Row, Status, covers, first_of, find_registry_by_research_key, patched, update_registry, has_slug,
  insert_registry, tolerates, equals, is_true,
}
use research_orchestrator.Registry.{
  Texts, Research, created, updated, inserted, given, derive_status, row_of, with_existing,
  with_status, sync_from_research,
}
use research_orchestrator.Registry.Curation.{has_id}

find-append :
    (code : String) (symbol interval : Option String) (rows : List Row) (r : Row)
    → find_registry_by_research_key code symbol interval rows ≡ none
    → covers code symbol interval r ≡ true
    → find_registry_by_research_key code symbol interval (rows ++ (r ∷ [])) ≡ some r
unfolding find_registry_by_research_key first_of
find-append code symbol interval [] r h c = rw c refl
find-append code symbol interval (x ∷ xs) r h c =
    elim (Bool-cases (covers code symbol interval x)) [
      | inl e ↦ ground (arith, h, e)
      | inr e ↦ rw e (find-append code symbol interval xs r (rw e at h) c)
    ]

update_registry-append :
    (f : Row → Row) (rows : List Row) (r : Row)
    → any (has_id r.registry_id) rows ≡ false
    → update_registry r.registry_id f (rows ++ (r ∷ [])) ≡ rows ++ (f r ∷ [])
unfolding update_registry
update_registry-append f [] r h = rw (==_refl r.registry_id) refl
update_registry-append f (x ∷ xs) r h = elim (Bool-cases (x.registry_id == r.registry_id)) [
  | inl e ↦ ground (arith, h, e)
  | inr e ↦ rw (e, update_registry-append f xs r (ground (arith, h))) refl
]

length-appended :
    (rows : List Row) (r s : Row) → length (rows ++ (r ∷ [])) ≡ length (rows ++ (s ∷ []))
length-appended rows r s = omega (arith, length-append rows (r ∷ []), length-append rows (s ∷ []))

tolerates_refl : (o : Option String) → tolerates o o ≡ true
unfolding tolerates equals is_true
tolerates_refl none = refl
tolerates_refl (some s) = ground (arith, str_eq_iff s s)

-- A row of the loop's own that shows a status.
pub record Shows (s : Status) (r : Row) : Type 0 where
  pub tier : r.promise_tier ≡ s.tier
  pub tag : r.verdict_tag ≡ s.tag
  pub lifecycle : r.lifecycle_status ≡ s.lifecycle
  pub own : r.auto_managed ≡ true

-- the same research with later verdicts
abbrev pub later : Research → (statistical walk_forward : Option String) → Research
later q statistical walk_forward = record q {
  statistical_verdict = statistical;
  walk_forward_verdict = walk_forward;
}

module _ (t : Texts) where
  -- The row that a sync inserts covers what it is about, also once it is updated.
  row_of-covers :
      (s : Status) (q : Research) (id now : ℕ)
      → covers q.strategy_code q.symbol q.interval (row_of t s q id now) ≡ true
  unfolding covers row_of equals is_true
  row_of-covers s q id now = ground (
    arith,
    str_eq_iff q.strategy_code q.strategy_code,
    tolerates_refl q.symbol,
    tolerates_refl q.interval,
  )

  -- A sync that reports `created` has appended its row to a table without a row for its key.
  record Created (q : Research) (id now : ℕ) (rows after : List Row) : Type 0 where
    pub status : Status
    pub named : str_eq q.strategy_code "" ≡ false
    pub absent : find_registry_by_research_key q.strategy_code q.symbol q.interval rows ≡ none
    pub appended : after ≡ rows ++ (row_of t status q id now ∷ [])

  module _ (q : Research) (id now : ℕ) (rows : List Row) where
    inserted-created :
        (s : Status)
        → (inserted rows (insert_registry (row_of t s q id now) rows)).0 ≡ created
        → (inserted rows (insert_registry (row_of t s q id now) rows)).1
          ≡ rows ++ (row_of t s q id now ∷ [])
    unfolding inserted insert_registry
    inserted-created s = elim (Bool-cases (any (has_slug (row_of t s q id now).slug) rows)) [
      | inl e ↦ rw e λ h. ground (arith, h)
      | inr e ↦ rw e λ h. refl
    ]

    with_existing-created :
        (s : Status) (o : Option Row)
        → str_eq q.strategy_code "" ≡ false
        → find_registry_by_research_key q.strategy_code q.symbol q.interval rows ≡ o
        → (with_existing t s q id now rows o).0 ≡ created
        → Created q id now rows (with_existing t s q id now rows o).1
    unfolding with_existing
    with_existing-created s none n f h = record {
      status = s;
      named = n;
      absent = f;
      appended = inserted-created s h;
    }
    with_existing-created s (some e) n f h = elim (Bool-cases e.auto_managed) [
      | inl a ↦ ground (arith, h, a)
      | inr a ↦ ground (arith, h, a)
    ]

    with_status-created :
        (o : Option Status)
        → str_eq q.strategy_code "" ≡ false
        → (with_status t o q id now rows).0 ≡ created
        → Created q id now rows (with_status t o q id now rows).1
    unfolding with_status
    with_status-created none n h = ground (arith, h)
    with_status-created (some s) n h = with_existing-created s _ n refl h

    sync_from_research-created :
        (sync_from_research t q id now rows).0 ≡ created
        → Created q id now rows (sync_from_research t q id now rows).1
    unfolding sync_from_research
    sync_from_research-created = elim (Bool-cases (str_eq q.strategy_code "")) [
      | inl e ↦ rw e λ h. ground (arith, h)
      | inr e ↦ rw e (with_status-created _ e)
    ]

  module _ (q : Research) (sv wf : Option String) (s : Status) (id now id₂ now₂ : ℕ) where
    -- the row of the first sync after the second
    abbrev refreshed : Status → Row
    refreshed first = patched s (given q.signal_family) q.agent now₂ (row_of t first q id now)

    resynced :
        (rows after : List Row)
        → any (has_id id) rows ≡ false
        → derive_status t sv wf ≡ some s
        → (c : Created q id now rows after)
        → sync_from_research t (later q sv wf) id₂ now₂ after
          ≡ (updated, rows ++ (refreshed c.status ∷ []))
    unfolding sync_from_research with_status with_existing row_of
    resynced rows after i d c =
        let row = row_of t c.status q id now in
        rw
          (
            c.appended,
            c.named,
            d,
            find-append q.strategy_code q.symbol q.interval rows row c.absent
                (row_of-covers c.status q id now),
            update_registry-append (patched s (given q.signal_family) q.agent now₂) rows row i,
          )
          refl

    find-refreshed :
        (rows : List Row) (first : Status)
        → find_registry_by_research_key q.strategy_code q.symbol q.interval rows ≡ none
        → find_registry_by_research_key q.strategy_code q.symbol q.interval
            (rows ++ (refreshed first ∷ []))
          ≡ some (refreshed first)
    unfolding patched covers
    find-refreshed rows first h =
        find-append q.strategy_code q.symbol q.interval rows (refreshed first) h
          (row_of-covers first q id now)

    -- When a sync reports `created`, with an id that was fresh, a later sync of the same research
    -- with a conclusive verdict reports `updated`: the table gains no second row, and the row
    -- that is found for the research is the loop's own and shows the status of the later verdict.
    pub sync_from_research-resync :
        (rows : List Row)
        → any (has_id id) rows ≡ false
        → (sync_from_research t q id now rows).0 ≡ created
        → derive_status t sv wf ≡ some s
        → let first = (sync_from_research t q id now rows).1 in
          let second = sync_from_research t (later q sv wf) id₂ now₂ first in
          (second.0 ≡ updated)
          × (length second.1 ≡ length first)
          × ((r : Row) × (find_registry_by_research_key q.strategy_code q.symbol q.interval second.1
                ≡ some r)
              × Shows s r)
    unfolding patched row_of
    sync_from_research-resync rows i h d =
        let c = sync_from_research-created q id now rows h in
        let e = resynced rows _ i d c in
        rw (e, c.appended)
          (
            refl,
            length-appended rows (refreshed c.status) (row_of t c.status q id now),
            (
              refreshed c.status,
              find-refreshed rows c.status c.absent,
              record { tier = refl; tag = refl; lifecycle = refl; own = refl },
            ),
          )
