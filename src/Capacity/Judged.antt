-- ===== src/Capacity/Judged.antt =====
-- What stands behind a sweep that the judge lets proceed.
use research_orchestrator.Prelude.{
  ◌≡◌, refl, ap, ◌&&◌, sym, ◌∙◌, true, false, List, [], ◌∷◌, Option, none, some, if◌then◌else◌,
  arith, Bool-cases, inl, inr,
}
use research_orchestrator.Numbers.{Numbers}
use research_orchestrator.Capacity.{
  Scale, Point, Scan, Thresholds, EdgeDecayVerdict, proceed, is_cliff, valid, scan_start, scan_step,
  scan, classify_points, classify_verdict, is_below, five_times, provisional_judge_verdict,
  judge_sweep, defaults,
}

module _ (n : Numbers) where
  open n use {F, lt, le, literal}

  -- The points at and above the noise floor that come before the first one below it.
  abbrev pub viable_run : (floor : F) → List (Point F) → List (Point F)
  viable_run floor [] = []
  viable_run floor (s ∷ rest) =
      let run = viable_run floor rest in if le floor s.pf then s ∷ run else []

  abbrev pub last_capital : Option F → List (Point F) → Option F
  last_capital c [] = c
  last_capital c (s ∷ rest) = last_capital (some s.capital) rest

  -- The capital is the last of the viable run, of two scales or more by capital.
  pub record IsJudged (scales : List (Scale F)) (floor : Option F) : Type 0 where
    pub capital : F
    pub base : Point F
    pub next : Point F
    pub rest : List (Point F)
    pub enough : valid n scales ≡ base ∷ next ∷ rest
    pub base_holds : lt base.pf (literal 10 1) ≡ false
    pub viable : last_capital none (viable_run (literal 12 1) (valid n scales)) ≡ some capital
    pub above_floor : is_below n capital floor ≡ false
    pub has_room : is_below n capital (five_times n floor) ≡ false
    pub no_cliff : is_cliff (classify_verdict n (defaults n) scales).0 ≡ false

  module _ (t : Thresholds F) where
    step_broken :
        (base_pf : F) (s : Point F) (st : Scan F)
        → le t.noise_floor s.pf && st.viable_run_intact ≡ false
        → ((scan_step n t base_pf s st).max_viable ≡ st.max_viable)
          × ((scan_step n t base_pf s st).viable_run_intact ≡ false)
    unfolding scan_step
    step_broken base_pf s st h = (ground (arith, h), h)

    step_intact :
        (base_pf : F) (s : Point F) (st : Scan F)
        → le t.noise_floor s.pf && st.viable_run_intact ≡ true
        → ((scan_step n t base_pf s st).max_viable ≡ some s.capital)
          × ((scan_step n t base_pf s st).viable_run_intact ≡ true)
    unfolding scan_step
    step_intact base_pf s st h = (ground (arith, h), h)

    scan_broken :
        (base_pf : F) (points : List (Point F)) (st : Scan F)
        → st.viable_run_intact ≡ false
        → (scan n t base_pf points st).max_viable ≡ st.max_viable
    unfolding scan
    scan_broken base_pf [] st h = refl
    scan_broken base_pf (s ∷ rest) st h =
        let (kept, broken) = step_broken base_pf s st (ground (arith, h)) in
        scan_broken base_pf rest (scan_step n t base_pf s st) broken ∙ kept

    scan-viable_run :
        (base_pf : F) (points : List (Point F)) (st : Scan F)
        → st.viable_run_intact ≡ true
        → (scan n t base_pf points st).max_viable
          ≡ last_capital st.max_viable (viable_run t.noise_floor points)
    unfolding scan
    scan-viable_run base_pf [] st h = refl
    scan-viable_run base_pf (s ∷ rest) st h = elim (Bool-cases (le t.noise_floor s.pf)) [
      | inl e ↦
          let (kept, intact) = step_intact base_pf s st (ground (arith, e, h)) in
          let same = scan-viable_run base_pf rest (scan_step n t base_pf s st) intact in
          rw e (same ∙ ap (λ c. last_capital c (viable_run t.noise_floor rest)) kept)
      | inr e ↦
          let (kept, broken) = step_broken base_pf s st (ground (arith, e)) in
          let same = scan_broken base_pf rest (scan_step n t base_pf s st) broken in
          rw e (same ∙ kept)
    ]

    scan_start-viable_run :
        (base : Point F) (points : List (Point F))
        → (scan n t base.pf points (scan_start n t base)).max_viable
          ≡ last_capital none (viable_run t.noise_floor (base ∷ points))
    unfolding scan_start
    scan_start-viable_run base points = elim (Bool-cases (le t.noise_floor base.pf)) [
      | inl e ↦ rw e (scan-viable_run base.pf points _ refl)
      | inr e ↦ rw e (scan_broken base.pf points _ refl)
    ]

    -- A capital comes out of two scales or more, whose first has a profit factor of 1.0.
    record IsViable (points : List (Point F)) (m : F) : Type 0 where
      pub base : Point F
      pub next : Point F
      pub rest : List (Point F)
      pub enough : points ≡ base ∷ next ∷ rest
      pub base_holds : lt base.pf (literal 10 1) ≡ false
      pub viable : last_capital none (viable_run t.noise_floor points) ≡ some m

    classified-IsViable :
        (points : List (Point F)) (m : F)
        → (classify_points n t points).1 ≡ some m
        → IsViable points m
    unfolding classify_points
    classified-IsViable [] m h = ground (arith, h)
    classified-IsViable (base ∷ []) m h = ground (arith, h)
    classified-IsViable (base ∷ next ∷ rest) m h = record {
      base = base;
      next = next;
      rest = rest;
      enough = refl;
      base_holds = ground (arith, h);
      viable = sym (scan_start-viable_run base (next ∷ rest)) ∙ ground (arith, h);
    }

  let_through :
      (v : EdgeDecayVerdict) (o floor : Option F)
      → provisional_judge_verdict n v o floor ≡ proceed
      → (m : F) × (o ≡ some m)
        × (is_below n m floor ≡ false)
        × (is_below n m (five_times n floor) ≡ false)
        × (is_cliff v ≡ false)
  unfolding provisional_judge_verdict
  let_through v none floor h = ground (arith, h)
  let_through v (some m) floor h =
      (m, refl, ground (arith, h), ground (arith, h), ground (arith, h))

  -- A sweep that the judge lets proceed has two scales or more with a profit factor, the smallest
  -- capital has one not below 1.0, and the capital called viable is the last of the scales, in the
  -- order of capital, that come before the first one below the noise floor of 1.2. It is not below
  -- the floor of the operator, nor below five times that floor, and the decay of the edge is no
  -- sharp cliff.
  pub judge_sweep-IsJudged :
      (scales : List (Scale F)) (floor : Option F)
      → judge_sweep n scales floor ≡ proceed
      → IsJudged scales floor
  unfolding judge_sweep classify_verdict defaults
  judge_sweep-IsJudged scales floor h =
      let (m, is, above, room, flat) = let_through _ _ floor h in
      let found = classified-IsViable (defaults n) (valid n scales) m is in
      record {
        capital = m;
        base = found.base;
        next = found.next;
        rest = found.rest;
        enough = found.enough;
        base_holds = found.base_holds;
        viable = found.viable;
        above_floor = above;
        has_room = room;
        no_cliff = flat;
      }
