-- ===== src/Registry/Tests.antt =====
-- A registry with a curated entry and one of the loop's own.
use research_orchestrator.Prelude.{
  String, List, [], ◌∷◌, Option, none, some, ◌≡◌, refl, false, length,
}
use research_orchestrator.Registry.Table.{
  insert_registry, Row, has_slug, covers, equals, is_true, find_registry_by_research_key,
}
use research_orchestrator.Registry.{
  inserted, with_existing, by_iteration, or_text, by_walk_forward, with_status, Texts, Research,
  updated, thin, robust, edge, derive_status, sync_from_research, row_of, slug_of,
}
use research_orchestrator.Registry.Curation.{IsTable, curated, sync_from_research-curated}
use research_orchestrator.Registry.Coverage.{Shows, later, sync_from_research-resync}

-- texts that are in the wanted case already; a join keeps the first part
abbrev plain : Texts
plain = record {
  upper = λ s. s;
  lower = λ s. s;
  strip = λ s. s;
  replace = λ old new s. s;
  clip = λ n s. s;
  join = λ sep parts. elim parts [ [] ↦ "" | p ∷ ps ↦ p ];
}

abbrev research : String → Option String → Research
research code verdict = record {
  strategy_code = code;
  symbol = some "BTCUSDT";
  interval = some "1h";
  statistical_verdict = verdict;
  walk_forward_verdict = none;
  hypothesis = none;
  signal_family = none;
  agent = "quant-researcher";
}

-- an entry of a whole universe, which covers every symbol and interval
abbrev curated_entry : Row
curated_entry = record (row_of plain edge (research "LSR" none) 1 0) {
  symbol = none;
  interval_name = none;
  auto_managed = false;
}

abbrev table : List Row
table = curated_entry ∷ row_of plain thin (research "VBO" none) 2 0 ∷ []

sync_from_research-curated_example :
    let after = (sync_from_research plain (research "VBO" (some "NO_EDGE")) 3 9 table).1 in
    (curated after ≡ curated table) × IsTable after
unfolding row_of has_slug slug_of
sync_from_research-curated_example =
    sync_from_research-curated plain (research "VBO" (some "NO_EDGE")) 3 9 table
      (refl, refl, (refl, refl, tt)) refl

sync_from_research-resync_example :
    let first = (sync_from_research plain (research "MRO" (some "SIGNIFICANT_EDGE")) 3 9 table).1 in
    let second =
      sync_from_research plain
        (later (research "MRO" (some "SIGNIFICANT_EDGE")) none (some "ROBUST"))
        4
        10
        first in
    (second.0 ≡ updated)
    × (length second.1 ≡ length first)
    × ((r : Row) × (find_registry_by_research_key "MRO" (some "BTCUSDT") (some "1h") second.1
          ≡ some r)
        × Shows robust r)
unfolding sync_from_research derive_status row_of with_status by_walk_forward or_text by_iteration
    with_existing find_registry_by_research_key covers is_true equals inserted insert_registry
    has_slug slug_of
sync_from_research-resync_example =
    sync_from_research-resync plain (research "MRO" (some "SIGNIFICANT_EDGE")) none (some "ROBUST")
      robust 3 9 4 10 table refl refl refl
