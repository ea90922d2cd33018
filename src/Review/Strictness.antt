-- ===== src/Review/Strictness.antt =====
-- When a review approves, and what the hedging track changes.
use research_orchestrator.Prelude.{
  ℕ, ◌+◌, ◌≤◌, String, ◌≡◌, refl, ◌↔◌, Bool, true, false, ◌||◌, Option, List, [], ◌∷◌, map, ◌==◌,
  length, select, arith, Bool-cases, inl, inr, all,
}
use research_orchestrator.Review.{
  Severity, blocker, warning, info, Check, ReviewVerdict, approved, conditional_approval, rejected,
  is_severity, failing, verdict_of, aggregate_verdict, is_hedging_blocker, escalated_check,
  is_hedging_track, escalate,
}

-- How strict a verdict is.
abbrev pub strictness : ReviewVerdict → ℕ
strictness approved = 0
strictness conditional_approval = 1
strictness rejected = 2

verdict_of_mono :
    (b w b' w' : ℕ)
    → b ≤ b'
    → b + w ≤ b' + w'
    → strictness (verdict_of b w) ≤ strictness (verdict_of b' w')
unfolding verdict_of
verdict_of_mono b w b' w' h k = ground (arith, h, k)

abbrev fails : Severity → List Check → ℕ
fails s cs = length (failing s cs)

-- The failing checks of two lists, the second at least as severe.
record IsStricter (cs ds : List Check) : Type 0 where
  blockers : fails blocker cs ≤ fails blocker ds
  both : fails blocker cs + fails warning cs ≤ fails blocker ds + fails warning ds

abbrev check : String → Severity → Bool → Check
check name s p = record { check_name = name; severity = s; passed = p }

IsStricter-cons :
    (name : String) (s : Severity) (p : Bool) (cs ds : List Check)
    → IsStricter cs ds
    → IsStricter (check name s p ∷ cs) (escalated_check (check name s p) ∷ ds)
unfolding failing select escalated_check
IsStricter-cons name s p cs ds h = elim (Bool-cases (is_hedging_blocker name)) [
  | inl e ↦ rw e (raised s p)
  | inr e ↦ rw e (same s p)
]
  where
    raised :
        (s : Severity) (p : Bool) → IsStricter (check name s p ∷ cs) (check name blocker p ∷ ds)
    raised s true = record { blockers = ground (arith, h.blockers); both = ground (arith, h.both) }
    raised blocker false = record {
      blockers = omega (arith, h.blockers);
      both = omega (arith, h.both);
    }
    raised warning false = record {
      blockers = omega (arith, h.blockers);
      both = omega (arith, h.both);
    }
    raised info false = record {
      blockers = omega (arith, h.blockers);
      both = omega (arith, h.both);
    }

    same : (s : Severity) (p : Bool) → IsStricter (check name s p ∷ cs) (check name s p ∷ ds)
    same s true = record { blockers = ground (arith, h.blockers); both = ground (arith, h.both) }
    same blocker false = record {
      blockers = omega (arith, h.blockers);
      both = omega (arith, h.both);
    }
    same warning false = record {
      blockers = omega (arith, h.blockers);
      both = omega (arith, h.both);
    }
    same info false = record { blockers = omega (arith, h.blockers); both = omega (arith, h.both) }

IsStricter-escalated : (cs : List Check) → IsStricter cs (map escalated_check cs)
IsStricter-escalated [] = record { blockers = omega arith; both = omega arith }
IsStricter-escalated (c ∷ cs) =
    IsStricter-cons c.check_name c.severity c.passed cs _ (IsStricter-escalated cs)

-- The escalation of the hedging track never softens the verdict, whatever the checks and their
-- severities: it stays or becomes stricter.
pub escalate-strictness :
    (track : Option String) (cs : List Check)
    → strictness (aggregate_verdict cs).verdict
      ≤ strictness (aggregate_verdict (escalate track cs)).verdict
unfolding aggregate_verdict escalate
escalate-strictness track cs = elim (Bool-cases (is_hedging_track track)) [
  | inl h ↦ rw h (
      verdict_of_mono (fails blocker cs) (fails warning cs) _ _ (IsStricter-escalated cs).blockers
        (IsStricter-escalated cs).both)
  | inr h ↦ rw h (omega arith)
]

-- A check that stands in the way of no approval.
abbrev pub is_harmless : Check → Bool
is_harmless c = c.passed || is_severity c.severity info

is_harmless-cons :
    (name : String) (s : Severity) (p : Bool) (cs : List Check)
    → ((fails blocker cs + fails warning cs == 0) ≡ all is_harmless cs)
    → (fails blocker (check name s p ∷ cs) + fails warning (check name s p ∷ cs) == 0)
      ≡ all is_harmless (check name s p ∷ cs)
unfolding failing select
is_harmless-cons name blocker true cs h = h
is_harmless-cons name warning true cs h = h
is_harmless-cons name info true cs h = h
is_harmless-cons name blocker false cs h = ground arith
is_harmless-cons name warning false cs h = ground arith
is_harmless-cons name info false cs h = h

is_harmless-all :
    (cs : List Check) → (fails blocker cs + fails warning cs == 0) ≡ all is_harmless cs
unfolding failing select
is_harmless-all [] = refl
is_harmless-all (c ∷ cs) = is_harmless-cons c.check_name c.severity c.passed cs (is_harmless-all cs)

verdict_of-approved : (b w : ℕ) → (verdict_of b w ≡ approved) ↔ ((b + w == 0) ≡ true)
unfolding verdict_of
verdict_of-approved b w = (λ h. ground (arith, h), λ h. ground (arith, h))

-- A review approves exactly when every check passed, those of severity `info` aside.
pub approved_iff :
    (cs : List Check) → ((aggregate_verdict cs).verdict ≡ approved) ↔ (all is_harmless cs ≡ true)
unfolding aggregate_verdict
approved_iff cs =
    rw (← is_harmless-all cs) (verdict_of-approved (fails blocker cs) (fails warning cs))
