-- ===== src/Queue/View.antt =====
-- The table seen by id, and what an UPDATE does to that view.
use research_orchestrator.Prelude.{
  ℕ, ◌≡◌, refl, Bool, ◌&&◌, Option, none, some, List, [], ◌∷◌, arith, ◌==◌, if◌then◌else◌,
  Bool-cases, inl, inr,
}
use research_orchestrator.Queue.{Row, update_where, find}

-- No two rows share an id: `queue_id` is the primary key.
abbrev pub IsKeyed : List Row → Type 0
IsKeyed [] = Unit
IsKeyed (r ∷ rs) = (find r.queue_id rs ≡ none) × IsKeyed rs

abbrev pub touch : (Row → Bool) → (Row → Row) → Row → Row
touch p f r = if p r then f r else r

abbrev pub on_row : (Row → Row) → Option Row → Option Row
on_row f none = none
on_row f (some r) = some (f r)

module _ (p : Row → Bool) (f : Row → Row) (keeps : (r : Row) → (f r).queue_id ≡ r.queue_id) where
  pub find-update_where :
      (j : ℕ) (t : List Row) → find j (update_where p f t).0 ≡ on_row (touch p f) (find j t)
  unfolding find update_where
  find-update_where j [] = refl
  find-update_where j (r ∷ rs) = ground (arith, keeps r, find-update_where j rs)

  pub update_where-IsKeyed : (t : List Row) → IsKeyed t → IsKeyed (update_where p f t).0
  unfolding update_where
  update_where-IsKeyed [] k = tt
  update_where-IsKeyed (r ∷ rs) k =
      ground (arith, keeps r, update_where-IsKeyed rs k.1, find-update_where r.queue_id rs)

pub find_id : (j : ℕ) (t : List Row) (r : Row) → find j t ≡ some r → r.queue_id ≡ j
unfolding find
find_id j [] r h = cc
find_id j (x ∷ xs) r h = ground (arith, find_id j xs r)

abbrev pub hits : (Row → Bool) → Option Row → ℕ
hits g none = 0
hits g (some r) = if g r then 1 else 0

-- An UPDATE by key affects one row or none: the row of that id, if it passes the guard.
module _ (j : ℕ) (g : Row → Bool) (f : Row → Row) where
  update_where_absent :
      (t : List Row) → find j t ≡ none → (update_where (λ r. r.queue_id == j && g r) f t).1 ≡ 0
  unfolding find update_where
  update_where_absent [] h = refl
  update_where_absent (r ∷ rs) h = ground (arith, update_where_absent rs)

  pub affected_by_key :
      (t : List Row)
      → IsKeyed t
      → (update_where (λ r. r.queue_id == j && g r) f t).1 ≡ hits g (find j t)
  unfolding find update_where
  affected_by_key [] k = refl
  affected_by_key (r ∷ rs) k = elim (Bool-cases (r.queue_id == j)) [
    | inl e ↦ ground (arith, update_where_absent rs)
    | inr ne ↦ ground (arith, affected_by_key rs k.1)
  ]

-- An UPDATE that affects no row changes nothing.
pub unaffected :
    (p : Row → Bool) (f : Row → Row) (t : List Row)
    → (update_where p f t).1 ≡ 0
    → update_where p f t ≡ (t, 0)
unfolding update_where
unaffected p f [] h = refl
unaffected p f (r ∷ rs) h = ground (arith, unaffected p f rs)
