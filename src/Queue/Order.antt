-- ===== src/Queue/Order.antt =====
-- What ORDER BY … LIMIT 1 selects.
use research_orchestrator.Prelude.{
  subst, ◌≡◌, ◌<◌, ◌≤◌, ◌⊎◌, refl, ◌∙◌, Bool, true, false, Option, none, some, List, [], ◌∷◌, arith,
  Bool-cases, inl, inr, All,
}
use research_orchestrator.Queue.{Row, first_by, first_of_two, comes_first}

-- A lower priority number goes first, and of equal ones the row that is not younger.
abbrev pub IsBefore : Row → Row → Type 0
IsBefore a b =
    (a.priority < b.priority) ⊎ ((a.priority ≡ b.priority) × (a.created_time ≤ b.created_time))

IsBefore-refl : (a : Row) → IsBefore a a
IsBefore-refl a = inr (refl, omega arith)

IsBefore-trans : (a b c : Row) → IsBefore a b → IsBefore b c → IsBefore a c
IsBefore-trans a b c (inl h) (inl k) = inl (omega (arith, h, k))
IsBefore-trans a b c (inl h) (inr (e, k)) = inl (omega (arith, h, e))
IsBefore-trans a b c (inr (e, h)) (inl k) = inl (omega (arith, e, k))
IsBefore-trans a b c (inr (e, h)) (inr (f, k)) = inr (e ∙ f, omega (arith, h, k))

IsBefore-comes_first : (a b : Row) → comes_first a b ≡ true → IsBefore a b
unfolding comes_first
IsBefore-comes_first a b h = ground (arith, h)

IsBefore-comes_last : (a b : Row) → comes_first a b ≡ false → IsBefore b a
unfolding comes_first
IsBefore-comes_last a b h = ground (arith, h)

-- `a` precedes every row that passes `p`.
abbrev pub Leads : (Row → Bool) → Row → List Row → Type 0
Leads p a = All (λ q. p q ≡ true → IsBefore a q)

Leads-trans : (p : Row → Bool) (a b : Row) (t : List Row) → IsBefore a b → Leads p b t → Leads p a t
Leads-trans p a b [] h l = tt
Leads-trans p a b (q ∷ qs) h l = (λ e. IsBefore-trans a b q h (l.0 e), Leads-trans p a b qs h l.1)

Leads-none : (p : Row → Bool) (a : Row) (t : List Row) → All (λ q. p q ≡ false) t → Leads p a t
Leads-none p a [] h = tt
Leads-none p a (q ∷ qs) h = (λ e. cc (h.0), Leads-none p a qs h.1)

-- The row that the query returns is in the table, passes the test and precedes all that do.
pub record IsFirst (p : Row → Bool) (t : List Row) (r : Row) : Type 0 where
  pub passes : p r ≡ true
  pub leads : Leads p r t

-- How the best of the rest stands to one more row that passes.
IsBest : (p : Row → Bool) (t : List Row) → Option Row → Type 0
IsBest p t none = All (λ q. p q ≡ false) t
IsBest p t (some b) = IsFirst p t b

IsFirst-cons :
    (p : Row → Bool) (x : Row) (xs : List Row) (best : Option Row)
    → p x ≡ true
    → IsBest p xs best
    → IsFirst p (x ∷ xs) (first_of_two x best)
unfolding IsBest first_of_two
IsFirst-cons p x xs none here b = record {
  passes = here;
  leads = (λ e. IsBefore-refl x, Leads-none p x xs b);
}
IsFirst-cons p x xs (some b) here f = elim (Bool-cases (comes_first x b)) [
  | inl e ↦ rw e (record {
    passes = here;
    leads = (λ _. IsBefore-refl x, Leads-trans p x b xs (IsBefore-comes_first x b e) f.leads);
  })
  | inr e ↦ rw e (record { passes = f.passes; leads = (λ _. IsBefore-comes_last x b e, f.leads) })
]

IsBest-skip :
    (p : Row → Bool) (x : Row) (xs : List Row) (best : Option Row)
    → p x ≡ false
    → IsBest p xs best
    → IsBest p (x ∷ xs) best
unfolding IsBest
IsBest-skip p x xs none e b = (e, b)
IsBest-skip p x xs (some b) e f = record { passes = f.passes; leads = (λ here. cc, f.leads) }

first_by-IsBest : (p : Row → Bool) (t : List Row) → IsBest p t (first_by p t)
unfolding first_by IsBest
first_by-IsBest p [] = tt
first_by-IsBest p (x ∷ xs) = elim (Bool-cases (p x)) [
  | inl e ↦ rw e (IsFirst-cons p x xs (first_by p xs) e (first_by-IsBest p xs))
  | inr e ↦ rw e (IsBest-skip p x xs (first_by p xs) e (first_by-IsBest p xs))
]

pub first_by-IsFirst :
    (p : Row → Bool) (t : List Row) (r : Row) → first_by p t ≡ some r → IsFirst p t r
unfolding IsBest
first_by-IsFirst p t r h = subst (IsBest p t) h (first_by-IsBest p t)

pub first_by-none : (p : Row → Bool) (t : List Row) → first_by p t ≡ none → All (λ q. p q ≡ false) t
unfolding IsBest
first_by-none p t h = subst (IsBest p t) h (first_by-IsBest p t)
