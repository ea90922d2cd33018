-- ===== src/Tick/Summary.antt =====
-- services/tick_summary.py: the three-field summary that the runner branches on.
use research_orchestrator.Prelude.{
  ℕ, String, str_eq, Bool, true, false, Option, none, some, List, [], ◌∷◌, if◌then◌else◌,
}
use Prim.Native.String.{◌++◌}
use research_orchestrator.Builtins.{Builtins}
use research_orchestrator.Verdict.{
  StatVerdict, significant_edge, insufficient_evidence, no_edge, Decision, pass, discard, stat_text,
  decision_text,
}

-- An entry of `next_actions`, by its `kind`. A wait is in milliseconds.
pub data Action : Type 0 where
  retry : (wait_ms : Option ℕ) → Action
  call : (method path : String) → Action
  read_doc : String → Action
  contact_human : Action
  note : Action

pub data Outcome : Type 0 where
  iterated empty_queue sweep_exhausted : Outcome
  other_outcome : String → Outcome

pub data Next : Type 0 where
  go_on graduate pivot queue_empty wait infra_fail : Next

pub record TickSummary : Type 0 where
  pub verdict_line : String
  pub next_action : Next
  pub decision_hint : String

unfoldable pub retry_hint : List Action → Bool
retry_hint [] = false
retry_hint (retry w ∷ others) = true
retry_hint (_ ∷ others) = retry_hint others

unfoldable pub outcome_text : Outcome → String
outcome_text iterated = "iterated"
outcome_text empty_queue = "empty_queue"
outcome_text sweep_exhausted = "sweep_exhausted"
outcome_text (other_outcome s) = s

abbrev summary : String → Next → String → TickSummary
summary line next hint = record { verdict_line = line; next_action = next; decision_hint = hint }

module _ (b : Builtins) where
  open b use {F, show_float2, show_int}

  -- " ".join(metrics)
  unfoldable pub metrics_text : Option F → Option ℕ → String
  metrics_text none none = ""
  metrics_text (some pf) none = "PF=" ++ show_float2 pf
  metrics_text none (some n) = "n=" ++ show_int n
  metrics_text (some pf) (some n) = "PF=" ++ show_float2 pf ++ " n=" ++ show_int n

  -- f"… ({metrics_str})." where there are metrics
  unfoldable pub with_metrics : (before after : String) → (bare : String) → String → String
  with_metrics before after bare String.[] = bare
  with_metrics before after bare m = before ++ m ++ after

  unfoldable pub or_no_edge : Option StatVerdict → String
  or_no_edge none = "no edge"
  or_no_edge (some v) = if str_eq (stat_text v) "" then "no edge" else stat_text v

  unfoldable pub shown_stat : Option StatVerdict → String
  shown_stat none = "None"
  shown_stat (some v) = stat_text v

  unfoldable pub shown_decision : Option Decision → String
  shown_decision none = "None"
  shown_decision (some d) = decision_text d

  -- An iteration that neither passed nor was discarded.
  unfoldable pub by_stat : Option StatVerdict → Option Decision → String → TickSummary
  by_stat (some significant_edge) d m =
      summary (with_metrics "SIG_EDGE without econ gate (" ")." "SIG_EDGE without econ gate." m)
        go_on "Stat edge real but ann_geom<10%; keep sweeping for a stronger cell."
  by_stat (some no_edge) d m =
      summary (with_metrics "NO_EDGE (" ")." "NO_EDGE." m) go_on
        "Continue sweep; pivot if cells run out."
  by_stat (some insufficient_evidence) d m =
      summary (with_metrics "INSUF (" ")." "INSUF (n likely<100)." m) go_on
        "Trade count likely below V11 threshold; continue or widen window."
  by_stat stat d m =
      summary ("Iterated; verdict=" ++ shown_decision d ++ ", stat=" ++ shown_stat stat ++ ".")
        go_on "Keep ticking; verdict pair did not match known terminals."

  unfoldable pub by_verdicts : Option StatVerdict → Option Decision → String → TickSummary
  by_verdicts stat (some pass) m =
      summary (with_metrics "SIG_EDGE + econ gate cleared (" ")." "SIG_EDGE + econ gate cleared." m)
        graduate "Request graduation review (POST /reviews/request, target_kind='graduation')."
  by_verdicts stat (some discard) m =
      summary
        (with_metrics ("DISCARD (" ++ or_no_edge stat ++ ", ") ")."
          ("DISCARD (" ++ or_no_edge stat ++ ").") m)
        pivot "Strategy ruled out on this axis; pick next archetype."
  by_verdicts stat d m = by_stat stat d m

  -- An outcome that the tick itself does not name: an infrastructure failure.
  unfoldable pub on_failure : String → Bool → TickSummary
  on_failure outcome true =
      summary ("Transient infra failure (outcome=" ++ outcome ++ ").") wait
        "Sleep per next_actions[0].wait_s, then replay tick."
  on_failure outcome false =
      summary ("Non-retryable infra failure (outcome=" ++ outcome ++ ").") infra_fail
        "Escalate to researcher; journal INFRA_FAILURE."

  unfoldable pub compute_tick_summary :
      Outcome
      → Option StatVerdict
      → Option Decision
      → List Action
      → Option F
      → Option ℕ
      → TickSummary
  unfolding on_failure by_verdicts by_stat
  compute_tick_summary empty_queue stat d actions pf n =
      summary "Queue empty — no PENDING row to claim." queue_empty
        "POST /queue with a new sweep, or pivot archetype."
  compute_tick_summary sweep_exhausted stat d actions pf n =
      summary "Sweep exhausted — iter_budget consumed." pivot
        "Review iteration_log + leaderboard; pick next axis or archetype."
  compute_tick_summary (other_outcome o) stat d actions pf n = on_failure o (retry_hint actions)
  compute_tick_summary iterated stat d actions pf n = by_verdicts stat d (metrics_text pf n)
