-- ===== src/Review/Plan.antt =====
-- The checks of a plan in services/review.py, without the prose of their findings.
use research_orchestrator.Prelude.{
  ℕ, String, Bool, false, not, ◌&&◌, List, [], ◌∷◌, Option, none, some, if◌then◌else◌, any, all,
  ltb, str_eq,
}
use research_orchestrator.Review.Checks.{Check, Severity, blocker, warning}

-- What the code takes of Python's `str`.
pub record Prose : Type 0 where
  pub lower : String → String
  -- len(s)
  pub size : String → ℕ
  -- marker in s
  pub contains : (marker s : String) → Bool

-- `none` for a missing key or a value that is no timestamp
pub record Hypothesis : Type 0 where
  pub created_time : Option ℕ
  pub content : Option String

-- structured_data.axis_names of a STRATEGY_OUTCOME entry, where it is a list
pub record PriorOutcome : Type 0 where
  pub axis_names : Option (List String)

unfoldable pub check : String → Severity → Bool → Check
check name severity passed = record { check_name = name; severity = severity; passed = passed }

unfoldable pub predates : Option ℕ → Option ℕ → Bool
predates none plan = false
predates (some h) none = false
predates (some h) (some p) = ltb h p

unfoldable pub pre_registered : Option Hypothesis → Option ℕ → Bool
pre_registered none plan = false
pre_registered (some h) plan = predates h.created_time plan

unfoldable pub check_pre_registration : Option Hypothesis → (plan_created_time : Option ℕ) → Check
check_pre_registration hypothesis plan_created_time =
    check "pre_registration" blocker (pre_registered hypothesis plan_created_time)

-- _MECHANISM_MARKERS
abbrev pub mechanism_markers : List String
mechanism_markers =
    "because" ∷ "driven by" ∷ "due to" ∷ "caused by" ∷ "mechanism" ∷ "rationale" ∷ "explained by"
    ∷ "follows from" ∷ []

unfoldable pub text_of : Option String → String
text_of none = ""
text_of (some s) = s

unfoldable pub names_mechanism : Prose → Option Hypothesis → Bool
names_mechanism t none = false
names_mechanism t (some h) =
    let content = t.lower (text_of h.content) in
    if ltb (t.size content) 60 then false else any (λ m. t.contains m content) mechanism_markers

unfoldable pub check_mechanism_named : Prose → Option Hypothesis → Check
check_mechanism_named t hypothesis = check "mechanism_named" warning (names_mechanism t hypothesis)

unfoldable pub is_member : List String → String → Bool
is_member names a = any (λ b. str_eq a b) names

-- set(a) == set(b)
unfoldable pub same_set : List String → List String → Bool
same_set a b = all (is_member b) a && all (is_member a) b

unfoldable pub is_near_miss : List String → PriorOutcome → Bool
is_near_miss proposed entry = elim entry.axis_names [
  | none ↦ false
  | some names ↦ same_set names proposed
]

unfoldable pub check_axis_not_recently_failed :
    List PriorOutcome → (proposed_axis_names : List String) → Check
check_axis_not_recently_failed prior proposed_axis_names =
    check "axis_not_recently_failed" warning (not (any (is_near_miss proposed_axis_names) prior))

unfoldable pub plan_review_checklist :
    Prose
    → Option Hypothesis
    → (plan_created_time : Option ℕ) → (proposed_axis_names : List String) → List PriorOutcome
    → List Check
plan_review_checklist t hypothesis plan_created_time proposed_axis_names prior =
    check_pre_registration hypothesis plan_created_time
    ∷ check_mechanism_named t hypothesis
    ∷ check_axis_not_recently_failed prior proposed_axis_names
    ∷ []
