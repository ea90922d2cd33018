-- ===== src/Review/Checks.antt =====
-- A check record, the escalation of the hedging track, and `aggregate_verdict`.
use research_orchestrator.Prelude.{
  ℕ, String, str_eq, Bool, true, false, not, ◌&&◌, ◌||◌, Option, none, some, List, map, leb, ◌==◌,
  if◌then◌else◌, length, select,
}

pub data Severity : Type 0 where
  blocker warning info : Severity

-- The keys of a check that the verdict reads.
pub record Check : Type 0 where
  pub check_name : String
  pub severity : Severity
  pub passed : Bool

pub data ReviewVerdict : Type 0 where
  approved conditional_approval rejected : ReviewVerdict

abbrev pub warning_fail_reject_threshold : ℕ
warning_fail_reject_threshold = 2

abbrev pub is_severity : Severity → Severity → Bool
is_severity blocker blocker = true
is_severity warning warning = true
is_severity info info = true
is_severity _ _ = false

-- [c for c in checks if c["severity"] == severity and not c["passed"]]
unfoldable pub failing : Severity → List Check → List Check
failing s checks = select (λ c. is_severity c.severity s && not c.passed) checks

unfoldable pub verdict_of : (blocker_fails warning_fails : ℕ) → ReviewVerdict
verdict_of blockers warnings =
    if blockers == 0
    then (if leb warning_fail_reject_threshold warnings
        then rejected
        else if warnings == 1
        then conditional_approval
        else approved)
    else rejected

pub record Review : Type 0 where
  pub verdict : ReviewVerdict
  pub n_checks : ℕ
  pub n_blocker_fails : ℕ
  pub n_warning_fails : ℕ
  pub checks : List Check

unfoldable pub aggregate_verdict : List Check → Review
unfolding verdict_of failing
aggregate_verdict checks = record {
  verdict = verdict_of (length (failing blocker checks)) (length (failing warning checks));
  n_checks = length checks;
  n_blocker_fails = length (failing blocker checks);
  n_warning_fails = length (failing warning checks);
  checks = checks;
}

-- `_HEDGING_BLOCKER_CHECKS`
unfoldable pub is_hedging_blocker : String → Bool
is_hedging_blocker name = str_eq name "regime_concentration" || str_eq name "param_robustness"

unfoldable pub escalated_check : Check → Check
unfolding is_hedging_blocker
escalated_check c = if is_hedging_blocker c.check_name then record c { severity = blocker } else c

unfoldable pub is_hedging_track : Option String → Bool
is_hedging_track none = false
is_hedging_track (some t) = str_eq t "hedging"

-- The end of `graduation_review_checklist`, over the checks that it has run.
unfoldable pub escalate : (track : Option String) → List Check → List Check
unfolding escalated_check is_hedging_track
escalate track checks = if is_hedging_track track then map escalated_check checks else checks
