-- ===== src/Verdict.antt =====
-- The verdict strings that the services exchange. `other` is any text that no branch names.
use research_orchestrator.Prelude.{String}

pub data StatVerdict : Type 0 where
  significant_edge insufficient_evidence no_edge not_tested : StatVerdict
  other_stat : String → StatVerdict

pub data Decision : Type 0 where
  pass discard iterate : Decision
  other_decision : String → Decision

-- The text of a verdict.
abbrev pub stat_text : StatVerdict → String
stat_text significant_edge = "SIGNIFICANT_EDGE"
stat_text insufficient_evidence = "INSUFFICIENT_EVIDENCE"
stat_text no_edge = "NO_EDGE"
stat_text not_tested = "NOT_TESTED"
stat_text (other_stat s) = s

abbrev pub decision_text : Decision → String
decision_text pass = "PASS"
decision_text discard = "DISCARD"
decision_text iterate = "ITERATE"
decision_text (other_decision s) = s
