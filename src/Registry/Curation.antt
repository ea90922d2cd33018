-- ===== src/Registry/Curation.antt =====
-- The rows that a human curates, and the keys of the table.
use research_orchestrator.Prelude.{
  ℕ, String, Bool, true, false, not, ◌&&◌, ◌≡◌, refl, ap, subst, ◌∙◌, ◌⊎◌, List, [], ◌∷◌, ◌++◌,
  Option, none, some, any, any-append, select, ◌==◌, ==_iff, str_eq, str_eq_iff, arith, Bool-cases,
  inl, inr,
}
use research_orchestrator.Registry.Table.{
  Row, Status, covers, first_of, find_registry_by_research_key, patched, update_registry, has_slug,
  insert_registry, precedes,
}
use research_orchestrator.Registry.{
  Texts, Research, inserted, derive_status, row_of, with_existing, with_status, sync_from_research,
}

-- the rows with `auto_managed` FALSE
abbrev pub curated : List Row → List Row
curated rows = select (λ r. not r.auto_managed) rows

abbrev pub has_id : ℕ → Row → Bool
has_id id r = r.registry_id == id

-- No two rows have one id, and no two have one slug.
abbrev pub IsTable : List Row → Type 0
IsTable [] = Unit
IsTable (r ∷ rs) =
    (any (has_id r.registry_id) rs ≡ false) × (any (has_slug r.slug) rs ≡ false) × IsTable rs

-- A found row is the first of the table, or found in the rest.
find-cases :
    (code : String) (symbol interval : Option String) (r e : Row) (rs : List Row)
    → find_registry_by_research_key code symbol interval (r ∷ rs) ≡ some e
    → (r ≡ e) ⊎ (find_registry_by_research_key code symbol interval rs ≡ some e)
unfolding find_registry_by_research_key first_of
find-cases code symbol interval r e rs h =
    let found = find_registry_by_research_key code symbol interval rs in
    elim (Bool-cases (covers code symbol interval r)) [
      | inl c ↦ chosen (found) refl (rw c at h)
      | inr c ↦ inr (rw c at h)
    ]
  where
    chosen :
        (o : Option Row)
        → find_registry_by_research_key code symbol interval rs ≡ o
        → some (first_of symbol interval r o) ≡ some e
        → (r ≡ e) ⊎ (find_registry_by_research_key code symbol interval rs ≡ some e)
    chosen none f h = inl (ground (arith, h))
    chosen (some x) f h = elim (Bool-cases (precedes symbol interval x r)) [
      | inl p ↦ inr (ground (arith, f, p, h))
      | inr p ↦ inl (ground (arith, p, h))
    ]

-- A found row stands in the table, under its id.
find-has_id :
    (code : String) (symbol interval : Option String) (rows : List Row) (e : Row)
    → find_registry_by_research_key code symbol interval rows ≡ some e
    → any (has_id e.registry_id) rows ≡ true
unfolding find_registry_by_research_key
find-has_id code symbol interval [] e h = ground (arith, h)
find-has_id code symbol interval (r ∷ rs) e h = elim (find-cases code symbol interval r e rs h) [
  | inl q ↦ ground (arith, ==_iff r.registry_id e.registry_id, ap (λ x. x.registry_id) q)
  | inr f ↦ ground (arith, find-has_id code symbol interval rs e f)
]

-- A row of the id that a human curates.
abbrev pub holds_curated : ℕ → Row → Bool
holds_curated id r = has_id id r && not r.auto_managed

holds_curated-has_id :
    (id : ℕ) (rows : List Row) → any (has_id id) rows ≡ false → any (holds_curated id) rows ≡ false
holds_curated-has_id id [] h = refl
holds_curated-has_id id (r ∷ rs) h =
    ground (arith, h, holds_curated-has_id id rs (ground (arith, h)))

-- When the found row is the loop's own, no curated row has its id.
find-holds_curated :
    (code : String) (symbol interval : Option String) (rows : List Row) (e : Row)
    → IsTable rows
    → find_registry_by_research_key code symbol interval rows ≡ some e
    → e.auto_managed ≡ true
    → any (holds_curated e.registry_id) rows ≡ false
find-holds_curated code symbol interval [] e k h a = refl
find-holds_curated code symbol interval (r ∷ rs) e k h a =
    elim (find-cases code symbol interval r e rs h) [
      | inl q ↦ own q
      | inr f ↦ ground (
        arith,
        find-holds_curated code symbol interval rs e k.2 f a,
        other (find-has_id code symbol interval rs e f),
      )
    ]
  where
    own : r ≡ e → any (holds_curated e.registry_id) (r ∷ rs) ≡ false
    own q =
        subst (λ x. any (holds_curated x.registry_id) (r ∷ rs) ≡ false) q
          (ground (arith, ap (λ x. x.auto_managed) q, a, holds_curated-has_id r.registry_id rs k.0))

    other : any (has_id e.registry_id) rs ≡ true → (r.registry_id == e.registry_id) ≡ false
    other f = elim (Bool-cases (r.registry_id == e.registry_id)) [
      | inl x ↦
          let absent : any (has_id e.registry_id) rs ≡ false =
            subst (λ i. any (has_id i) rs ≡ false) ((==_iff _ _).0 x) k.0 in
          ground (arith, f, absent)
      | inr x ↦ x
    ]

update_registry-curated :
    (id : ℕ) (s : Status) (family : Option String) (agent : String) (now : ℕ) (rows : List Row)
    → any (holds_curated id) rows ≡ false
    → curated (update_registry id (patched s family agent now) rows) ≡ curated rows
unfolding update_registry patched select
update_registry-curated id s family agent now [] h = refl
update_registry-curated id s family agent now (r ∷ rs) h =
    ground (arith, h, update_registry-curated id s family agent now rs (ground (arith, h)))

update_registry-has :
    (p : Row → Bool) (id : ℕ) (f : Row → Row) (rows : List Row)
    → ((r : Row) → p (f r) ≡ p r)
    → any p (update_registry id f rows) ≡ any p rows
unfolding update_registry
update_registry-has p id f [] h = refl
update_registry-has p id f (r ∷ rs) h = ground (arith, h r, update_registry-has p id f rs h)

update_registry-IsTable :
    (id : ℕ) (s : Status) (family : Option String) (agent : String) (now : ℕ) (rows : List Row)
    → IsTable rows
    → IsTable (update_registry id (patched s family agent now) rows)
unfolding update_registry patched has_slug
update_registry-IsTable id s family agent now [] k = tt
update_registry-IsTable id s family agent now (r ∷ rs) k =
    let rest = update_registry-IsTable id s family agent now rs k.2 in
    let ids =
      update_registry-has (has_id r.registry_id) id (patched s family agent now) rs λ x. refl in
    let slugs =
      update_registry-has (has_slug r.slug) id (patched s family agent now) rs λ x. refl in
    elim (Bool-cases (r.registry_id == id)) [
      | inl e ↦ rw e (ids ∙ k.0, slugs ∙ k.1, rest)
      | inr e ↦ rw e (ids ∙ k.0, slugs ∙ k.1, rest)
    ]

append-IsTable :
    (rows : List Row) (r : Row)
    → IsTable rows
    → any (has_id r.registry_id) rows ≡ false
    → any (has_slug r.slug) rows ≡ false
    → IsTable (rows ++ (r ∷ []))
unfolding has_slug
append-IsTable [] r k i s = (refl, refl, tt)
append-IsTable (x ∷ xs) r k i s = (
  ground (
    arith,
    i,
    k.0,
    any-append (has_id x.registry_id) xs (r ∷ []),
    ==_iff x.registry_id r.registry_id,
    ==_iff r.registry_id x.registry_id,
  ),
  ground (
    arith,
    s,
    k.1,
    any-append (has_slug x.slug) xs (r ∷ []),
    str_eq_iff x.slug r.slug,
    str_eq_iff r.slug x.slug,
  ),
  append-IsTable xs r k.2 (ground (arith, i)) (ground (arith, s)),
)

append-curated :
    (rows : List Row) (r : Row) → r.auto_managed ≡ true → curated (rows ++ (r ∷ [])) ≡ curated rows
unfolding select
append-curated [] r h = ground (arith, h)
append-curated (x ∷ xs) r h = ground (arith, append-curated xs r h)

-- What a sync keeps of a table.
record Keeps (before after : List Row) : Type 0 where
  pub curation : curated after ≡ curated before
  pub table : IsTable after

module _ (t : Texts) (q : Research) (id now : ℕ) where
  insert-Keeps :
      (s : Status) (rows : List Row)
      → IsTable rows
      → any (has_id id) rows ≡ false
      → Keeps rows (inserted rows (insert_registry (row_of t s q id now) rows)).1
  unfolding inserted insert_registry row_of
  insert-Keeps s rows k i = elim (Bool-cases (any (has_slug (row_of t s q id now).slug) rows)) [
    | inl e ↦ rw e (record { curation = refl; table = k })
    | inr e ↦ rw e (record {
      curation = append-curated rows (row_of t s q id now) refl;
      table = append-IsTable rows (row_of t s q id now) k i e;
    })
  ]

  with_existing-Keeps :
      (s : Status) (rows : List Row)
      → IsTable rows
      → any (has_id id) rows ≡ false
      → (o : Option Row)
      → find_registry_by_research_key q.strategy_code q.symbol q.interval rows ≡ o
      → Keeps rows (with_existing t s q id now rows o).1
  unfolding with_existing
  with_existing-Keeps s rows k i none f = insert-Keeps s rows k i
  with_existing-Keeps s rows k i (some e) f = elim (Bool-cases e.auto_managed) [
    | inl a ↦ rw a (record {
      curation =
          update_registry-curated e.registry_id s _ q.agent now rows
            (find-holds_curated q.strategy_code q.symbol q.interval rows e k f a);
      table = update_registry-IsTable e.registry_id s _ q.agent now rows k;
    })
    | inr a ↦ rw a (record { curation = refl; table = k })
  ]

  with_status-Keeps :
      (o : Option Status) (rows : List Row)
      → IsTable rows
      → any (has_id id) rows ≡ false
      → Keeps rows (with_status t o q id now rows).1
  unfolding with_status
  with_status-Keeps none rows k i = record { curation = refl; table = k }
  with_status-Keeps (some s) rows k i = with_existing-Keeps s rows k i _ refl

  -- In a table whose ids and slugs are distinct, with a fresh id from the database,
  -- `sync_from_research` leaves the curated rows as they were and in their order, and the ids
  -- and slugs stay distinct.
  pub sync_from_research-curated :
      (rows : List Row)
      → IsTable rows
      → any (has_id id) rows ≡ false
      → (curated (sync_from_research t q id now rows).1 ≡ curated rows)
        × IsTable (sync_from_research t q id now rows).1
  unfolding sync_from_research
  sync_from_research-curated rows k i = elim (Bool-cases (str_eq q.strategy_code "")) [
    | inl e ↦ rw e (refl, k)
    | inr e ↦
        let kept =
          with_status-Keeps (derive_status t q.statistical_verdict q.walk_forward_verdict) rows k
            i in
        rw e (kept.curation, kept.table)
  ]
