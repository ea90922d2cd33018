-- ===== src/Queue/Claims.antt =====
-- `claim_next`: which row it selects, and for whom.
use research_orchestrator.Prelude.{
  ℕ, String, ◌≡◌, ◌≢◌, refl, Bool, false, Option, none, some, List, [], ◌∷◌, arith, ◌==◌,
  if◌then◌else◌, Bool-cases, inl, inr, All, subst,
}
use research_orchestrator.Queue.{
  Row, Claim, claim_of, claim_selected, find, first_by, first_of_two, claimable, claimed_row,
  claim_next, update_where,
}
use research_orchestrator.Queue.View.{
  IsKeyed, update_where-IsKeyed, find-update_where, find_id, touch, on_row,
}
use research_orchestrator.Queue.Order.{IsFirst, first_by-IsFirst, first_by-none}

-- The row that the query selects is the one that the table holds under its id.
Held : List Row → Option Row → Type 0
Held t none = Unit
Held t (some b) = find b.queue_id t ≡ some b

Held-cons :
    (x : Row) (xs : List Row) (b : Option Row)
    → find x.queue_id xs ≡ none
    → Held xs b
    → Held (x ∷ xs) b
unfolding Held find
Held-cons x xs none k h = tt
Held-cons x xs (some b) k h = ground arith

Held-first_of_two :
    (x : Row) (xs : List Row) (b : Option Row)
    → find x.queue_id xs ≡ none
    → Held xs b
    → Held (x ∷ xs) (some (first_of_two x b))
unfolding Held find first_of_two
Held-first_of_two x xs none k h = ground arith
Held-first_of_two x xs (some b) k h = ground arith

first_by-Held : (p : Row → Bool) (t : List Row) → IsKeyed t → Held t (first_by p t)
unfolding first_by
first_by-Held p [] k = unfold Held in tt
first_by-Held p (x ∷ xs) k = elim (Bool-cases (p x)) [
  | inl e ↦ rw e (Held-first_of_two x xs (first_by p xs) k.0 (first_by-Held p xs k.1))
  | inr e ↦ rw e (Held-cons x xs (first_by p xs) k.0 (first_by-Held p xs k.1))
]

pub find-first_by :
    (p : Row → Bool) (t : List Row) (r : Row)
    → IsKeyed t
    → first_by p t ≡ some r
    → find r.queue_id t ≡ some r
unfolding Held
find-first_by p t r k h = subst (Held t) h (first_by-Held p t k)

-- The row behind a successful claim, and the table after it.
pub record Claims (locked : ℕ → Bool) (track : Option String) (now : ℕ) (t t' : List Row)
    (c : Claim) : Type 0 where
  pub row : Row
  pub held : find c.queue_id t ≡ some row
  pub first : IsFirst (claimable locked track) t row
  pub prior : c.prior_iter ≡ row.iteration_number
  pub resumes : c.active_backtest_run_id ≡ row.active_backtest_run_id
  pub stamped : c.started_at ≡ now
  pub after :
      (j : ℕ) → find j t' ≡ (if j == c.queue_id then some (claimed_row now row) else find j t)

keeps_id : (now : ℕ) (r : Row) → (claimed_row now r).queue_id ≡ r.queue_id
unfolding claimed_row
keeps_id now r = refl

find_claimed :
    (now : ℕ) (r : Row) (t : List Row) (j : ℕ)
    → find r.queue_id t ≡ some r
    → find j (update_where (λ q. q.queue_id == r.queue_id) (claimed_row now) t).0
      ≡ (if j == r.queue_id then some (claimed_row now r) else find j t)
find_claimed now r t j h =
    rw (find-update_where (λ q. q.queue_id == r.queue_id) (claimed_row now) (keeps_id now) j t)
      (at_id (find j t) refl)
  where
    at_id :
        (o : Option Row)
        → find j t ≡ o
        → on_row (touch (λ q. q.queue_id == r.queue_id) (claimed_row now)) o
          ≡ (if j == r.queue_id then some (claimed_row now r) else o)
    at_id none e = ground arith
    at_id (some q) e = ground (arith, find_id j t q e)

claim_selected-IsKeyed :
    (now : ℕ) (t : List Row) (o : Option Row) → IsKeyed t → IsKeyed (claim_selected now t o).0
unfolding claim_selected
claim_selected-IsKeyed now t none k = k
claim_selected-IsKeyed now t (some r) k =
    update_where-IsKeyed (λ q. q.queue_id == r.queue_id) (claimed_row now) (keeps_id now) t k

pub claim_next-IsKeyed :
    (locked : ℕ → Bool) (track : Option String) (now : ℕ) (t : List Row)
    → IsKeyed t
    → IsKeyed (claim_next locked track now t).0
unfolding claim_next
claim_next-IsKeyed locked track now t k = claim_selected-IsKeyed now t _ k

-- What a result of the claim says of the table it began with.
abbrev pub Claimed :
    (locked : ℕ → Bool) (track : Option String) (now : ℕ) (t : List Row)
    → List Row × Option Claim
    → Type 0
Claimed locked track now t (t', some c) = Claims locked track now t t' c
Claimed locked track now t (t', none) = All (λ q. claimable locked track q ≡ false) t × (t' ≡ t)

Claims-first :
    (locked : ℕ → Bool) (track : Option String) (now : ℕ) (t : List Row) (r : Row)
    → IsKeyed t
    → first_by (claimable locked track) t ≡ some r
    → Claims locked track now t
        (update_where (λ q. q.queue_id == r.queue_id) (claimed_row now) t).0
        (claim_of now r)
unfolding claim_of
Claims-first locked track now t r k e =
    let held : find r.queue_id t ≡ some r = find-first_by (claimable locked track) t r k e in
    record {
      row = r;
      held = held;
      first = first_by-IsFirst (claimable locked track) t r e;
      prior = refl;
      resumes = refl;
      stamped = refl;
      after = λ j. find_claimed now r t j held;
    }

claim_selected-Claimed :
    (locked : ℕ → Bool) (track : Option String) (now : ℕ) (t : List Row) (o : Option Row)
    → IsKeyed t
    → first_by (claimable locked track) t ≡ o
    → Claimed locked track now t (claim_selected now t o)
unfolding claim_selected
claim_selected-Claimed locked track now t none k e =
    (first_by-none (claimable locked track) t e, refl)
claim_selected-Claimed locked track now t (some r) k e = Claims-first locked track now t r k e

-- Over a table with unique ids, a claim returns the row that is first by priority and age among
-- those that it may take, with its counter as it was; it marks that row RUNNING with its counter
-- one up and its start at `now`, and leaves every other row as it was. It returns nothing
-- exactly when no row can be taken, and then the table is as it was.
pub claim_next-Claimed :
    (locked : ℕ → Bool) (track : Option String) (now : ℕ) (t : List Row)
    → IsKeyed t
    → Claimed locked track now t (claim_next locked track now t)
unfolding claim_next
claim_next-Claimed locked track now t k = claim_selected-Claimed locked track now t _ k refl

Claims-exclusive :
    {locked₁ locked₂ : ℕ → Bool} {track₁ track₂ : Option String} {now₁ now₂ : ℕ}
    {t t₁ t₂ : List Row} {c₁ c₂ : Claim}
    → Claims locked₁ track₁ now₁ t t₁ c₁
    → Claims locked₂ track₂ now₂ t₁ t₂ c₂
    → c₁.queue_id ≢ c₂.queue_id
unfolding claimable claimed_row
Claims-exclusive {c₂ = c₂} one two same =
    ground (arith, one.after c₂.queue_id, two.held, two.first.passes)

-- Two claims in a row, by any callers at any times, never return the same row.
pub claim_next_exclusive :
    (locked₁ locked₂ : ℕ → Bool) (track₁ track₂ : Option String) (now₁ now₂ : ℕ)
    (t t₁ t₂ : List Row) (c₁ c₂ : Claim)
    → IsKeyed t
    → claim_next locked₁ track₁ now₁ t ≡ (t₁, some c₁)
    → claim_next locked₂ track₂ now₂ t₁ ≡ (t₂, some c₂)
    → c₁.queue_id ≢ c₂.queue_id
claim_next_exclusive locked₁ locked₂ track₁ track₂ now₁ now₂ t t₁ t₂ c₁ c₂ k h₁ h₂ =
    Claims-exclusive
      (subst (Claimed locked₁ track₁ now₁ t) h₁ (claim_next-Claimed locked₁ track₁ now₁ t k))
      (subst (Claimed locked₂ track₂ now₂ t₁) h₂ (claim_next-Claimed locked₂ track₂ now₂ t₁ keyed))
  where
    keyed : IsKeyed t₁
    keyed =
        subst (λ (o : List Row × Option Claim). IsKeyed o.0) h₁
          (claim_next-IsKeyed locked₁ track₁ now₁ t k)
