-- ===== src/WalkForward/Folds.antt =====
-- The windows of `build_folds`.
use research_orchestrator.Prelude.{
  ℕ, zero, suc, ◌+◌, ◌*◌, ◌≤◌, ◌≡◌, ◌⊎◌, inl, inr, refl, sym, ap, subst, ◌/◌, ◌%◌, ◌∙◌, true, false,
  List, [], ◌∷◌, length, arith, Bool-cases,
}
use research_orchestrator.WalkForward.Dates.{Date, date, before, last_day, add_months, month_index}
use research_orchestrator.WalkForward.{Layout, test_start, test_end, folds_from, build_folds}

add_months-month_index : (d : Date) (k : ℕ) → month_index (add_months d k) ≡ month_index d + k
unfolding add_months
add_months-month_index d k = omega arith

-- The `i`-th window: where it starts and ends, in months, and that it ends within the whole.
pub record IsWindow (l : Layout) (i : ℕ) (w : Date × Date) : Type 0 where
  pub starts : month_index w.0 ≡ month_index l.full_start + i * l.step_months + l.train_months
  pub ends : month_index w.1 ≡ month_index w.0 + l.test_months
  pub fits : before l.full_end w.1 ≡ false

-- `P` holds of the elements with their numbers, from `i` on.
abbrev pub Numbered : (ℕ → Date × Date → Type 0) → ℕ → List (Date × Date) → Type 0
Numbered P i [] = Unit
Numbered P i (w ∷ ws) = P i w × Numbered P (i + 1) ws

module _ (l : Layout) where
  window :
      (i : ℕ)
      → before l.full_end (test_end l i) ≡ false
      → IsWindow l i (test_start l i, test_end l i)
  unfolding test_start test_end
  window i h = record {
    starts = omega (
      arith,
      add_months-month_index (add_months l.full_start (i * l.step_months)) l.train_months,
      add_months-month_index l.full_start (i * l.step_months),
    );
    ends = add_months-month_index (test_start l i) l.test_months;
    fits = h;
  }

  folds_from-IsWindow : (i left : ℕ) → Numbered (IsWindow l) i (folds_from l i left)
  unfolding folds_from
  folds_from-IsWindow i zero = tt
  folds_from-IsWindow i (suc left) = elim (Bool-cases (before l.full_end (test_end l i))) [
    | inl e ↦ rw e tt
    | inr e ↦ rw e (window i e, folds_from-IsWindow (i + 1) left)
  ]

  -- Why the folds end: all passes are made, or the next window does not fit.
  abbrev Ends : (i left found : ℕ) → Type 0
  Ends i left found = (found ≡ left) ⊎ (before l.full_end (test_end l (i + found)) ≡ true)

  shift :
      (i j : ℕ)
      → i ≡ j
      → before l.full_end (test_end l i) ≡ true
      → before l.full_end (test_end l j) ≡ true
  shift i j h = subst (λ m. before l.full_end (test_end l m) ≡ true) h

  folds_from-length :
      (i left : ℕ)
      → (length (folds_from l i left) ≤ left) × Ends i left (length (folds_from l i left))
  unfolding folds_from
  folds_from-length i zero = (omega arith, inl refl)
  folds_from-length i (suc left) = elim (Bool-cases (before l.full_end (test_end l i))) [
    | inl e ↦ rw e (omega arith, inr (shift i _ (omega arith) e))
    | inr e ↦
        let (bound, ends) = folds_from-length (i + 1) left in
        rw e (
          omega (arith, bound),
          elim ends [ inl f ↦ inl (ap suc f) | inr f ↦ inr (shift _ _ (omega arith) f) ],
        )
  ]

  -- The windows that `build_folds` returns are those of its passes, in order: the `i`-th starts
  -- `i` steps and the training months after the whole, in months, takes the test months, and ends
  -- within the whole. They are at most `n_folds`, and fewer only when the next does not fit.
  pub build_folds-IsWindow :
      (n_folds : ℕ)
      → Numbered (IsWindow l) 0 (build_folds l n_folds)
        × (length (build_folds l n_folds) ≤ n_folds)
        × ((length (build_folds l n_folds) ≡ n_folds)
            ⊎ (before l.full_end (test_end l (length (build_folds l n_folds))) ≡ true))
  unfolding build_folds
  build_folds-IsWindow n_folds =
      let (bound, ends) = folds_from-length 0 n_folds in
      (
        folds_from-IsWindow 0 n_folds,
        bound,
        elim ends [ inl f ↦ inl f | inr f ↦ inr (shift _ _ (omega arith) f) ],
      )

last_day-bound : (year month : ℕ) → 28 ≤ last_day year month
unfolding last_day
last_day-bound year month = ground arith

-- the date of a month and a day
abbrev dated : (months day : ℕ) → Date
dated months day = date (months / 12) (months % 12 + 1) day

add_months-dated :
    (d : Date) (k : ℕ) → d.day ≤ 28 → add_months d k ≡ dated (month_index d + k) d.day
unfolding add_months
add_months-dated d k h = ap (date _ _) (omega (arith, h, last_day-bound _ _))

-- On a day that every month has, months add up.
add_months-add_months :
    (d : Date) (j k : ℕ) → d.day ≤ 28 → add_months (add_months d j) k ≡ add_months d (j + k)
add_months-add_months d j k h =
    let total = month_index d + j in
    let months : month_index (dated (month_index d + j) d.day) + k ≡ month_index d + (j + k) =
      omega arith in
    ap (λ e. add_months e k) (add_months-dated d j h)
    ∙ add_months-dated (dated (month_index d + j) d.day) k h
    ∙ ap (λ m. dated m d.day) months
    ∙ sym (add_months-dated d (j + k) h)

-- Each window starts on the date on which the one before ends, the first on `d`.
abbrev pub ContiguousFrom : Date → List (Date × Date) → Type 0
ContiguousFrom d [] = Unit
ContiguousFrom d (w ∷ ws) = (w.0 ≡ d) × ContiguousFrom w.1 ws

module _ (l : Layout) (early : l.full_start.day ≤ 28) where
  test_start-months :
      (i : ℕ) → test_start l i ≡ add_months l.full_start (i * l.step_months + l.train_months)
  unfolding test_start
  test_start-months i = add_months-add_months l.full_start (i * l.step_months) l.train_months early

  test_end-months :
      (i : ℕ)
      → test_end l i ≡ add_months l.full_start (i * l.step_months + l.train_months + l.test_months)
  unfolding test_end
  test_end-months i =
      ap (λ d. add_months d l.test_months) (test_start-months i)
      ∙ add_months-add_months l.full_start (i * l.step_months + l.train_months) l.test_months early

  next_start : (i : ℕ) → l.step_months ≡ l.test_months → test_start l (i + 1) ≡ test_end l i
  next_start i h =
      test_start-months (i + 1)
      ∙ ap (add_months l.full_start) (grind (arith, h))
      ∙ sym (test_end-months i)

  folds_from-ContiguousFrom :
      (i left : ℕ)
      → l.step_months ≡ l.test_months
      → ContiguousFrom (test_start l i) (folds_from l i left)
  unfolding folds_from
  folds_from-ContiguousFrom i zero h = tt
  folds_from-ContiguousFrom i (suc left) h = elim (Bool-cases (before l.full_end (test_end l i))) [
    | inl e ↦ rw e tt
    | inr e ↦ rw e (
      refl,
      subst (λ d. ContiguousFrom d (folds_from l (i + 1) left)) (next_start i h)
          (folds_from-ContiguousFrom (i + 1) left h),
    )
  ]

  -- When the whole window starts on one of the first 28 days of a month and a step is as long as
  -- a test, the test windows of `build_folds` join: the first starts on the first test date,
  -- and each next one on the date on which the one before ends.
  pub build_folds-ContiguousFrom :
      (n_folds : ℕ)
      → l.step_months ≡ l.test_months
      → ContiguousFrom (test_start l 0) (build_folds l n_folds)
  unfolding build_folds
  build_folds-ContiguousFrom n_folds h = folds_from-ContiguousFrom 0 n_folds h
