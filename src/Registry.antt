-- ===== src/Registry.antt =====
-- services/registry_sync.py: the research loop's upkeep of its rows of the registry.
pub mod Table
pub mod Curation
pub mod Coverage
mod Tests
use research_orchestrator.Prelude.{
  ℕ, String, Bool, true, false, ◌||◌, List, [], ◌∷◌, ◌++◌, Option, none, some, if◌then◌else◌,
  str_eq,
}
use research_orchestrator.Registry.Table.{
  Row, Status, patched, find_registry_by_research_key, update_registry, insert_registry,
}

-- What the code takes of Python's `str`.
pub record Texts : Type 0 where
  pub upper : String → String
  pub lower : String → String
  pub strip : String → String
  -- s.replace(old, new)
  pub replace : (old new s : String) → String
  -- s[:n]
  pub clip : ℕ → String → String
  -- sep.join(parts)
  pub join : (sep : String) → List String → String

abbrev pub robust : Status
robust = record { tier = "TIER_A"; tag = "REAL_LEAD"; lifecycle = "LEAD" }

abbrev pub dead : Status
dead = record { tier = "TIER_C"; tag = "FALSIFIED"; lifecycle = "FALSIFIED" }

abbrev pub thin : Status
thin = record { tier = "TIER_B"; tag = "REAL_UNCERTIFIABLE"; lifecycle = "PARKED" }

abbrev pub edge : Status
edge = record { tier = "TIER_B"; tag = "REAL_UNCERTIFIABLE"; lifecycle = "LEAD" }

-- s or default
unfoldable pub or_text : Option String → String → String
or_text none default = default
or_text (some s) default = if str_eq s "" then default else s

-- `[s] if s else []`
unfoldable pub part : Option String → List String
part none = []
part (some s) = if str_eq s "" then [] else s ∷ []

unfoldable pub by_iteration : String → Option Status
by_iteration sv =
    if str_eq sv "SIGNIFICANT_EDGE"
    then some edge
    else if str_eq sv "INSUFFICIENT_EVIDENCE"
    then some thin
    else if str_eq sv "NO_EDGE"
    then some dead
    else none

unfoldable pub by_walk_forward : (wf sv : String) → Option Status
by_walk_forward wf sv =
    if str_eq wf "ROBUST"
    then some robust
    else if str_eq wf "OVERFIT" || str_eq wf "NO_EDGE"
    then some dead
    else if str_eq wf "INCONSISTENT"
    then some thin
    else by_iteration sv

pub data Outcome : Type 0 where
  created updated skipped no_op : Outcome

pub record Research : Type 0 where
  pub strategy_code : String
  pub symbol : Option String
  pub interval : Option String
  pub statistical_verdict : Option String
  pub walk_forward_verdict : Option String
  pub hypothesis : Option String
  pub signal_family : Option String
  pub agent : String

-- signal_family, when it is not empty
unfoldable pub given : Option String → Option String
given none = none
given (some s) = if str_eq s "" then none else some s

unfoldable pub inserted : List Row → Option (List Row) → Outcome × List Row
inserted rows none = (skipped, rows)
inserted rows (some grown) = (created, grown)

module _ (t : Texts) where
  unfoldable pub derive_status : (statistical walk_forward : Option String) → Option Status
  derive_status statistical walk_forward =
      by_walk_forward (t.upper (or_text walk_forward "")) (t.upper (or_text statistical ""))

  unfoldable pub slug_of : Research → String
  slug_of q =
      t.replace "_" "-" (t.lower (t.join "-" (q.strategy_code ∷ part q.symbol ++ part q.interval)))

  unfoldable pub display_name_of : Research → String
  display_name_of q = t.join " " (q.strategy_code ∷ part q.symbol ++ part q.interval)

  unfoldable pub thesis_of : Research → String
  thesis_of q = t.clip 480 (
      t.strip (
        or_text q.hypothesis
          (t.join "" ("Auto-tracked from research (" ∷ q.strategy_code ∷ ")." ∷ []))))

  -- the row of the INSERT, with the id and the time that the database gives
  unfoldable pub row_of : Status → Research → (id now : ℕ) → Row
  row_of s q id now = record {
    registry_id = id;
    slug = slug_of q;
    promise_tier = s.tier;
    display_name = display_name_of q;
    signal_family = q.signal_family;
    strategy_code = some q.strategy_code;
    symbol = q.symbol;
    interval_name = q.interval;
    verdict_tag = s.tag;
    lifecycle_status = s.lifecycle;
    thesis = thesis_of q;
    is_offline_lead = false;
    auto_managed = true;
    updated_by = q.agent;
    updated_time = now;
  }

  unfoldable pub with_existing :
      Status → Research → (id now : ℕ) → List Row → Option Row → Outcome × List Row
  with_existing s q id now rows none = inserted rows (insert_registry (row_of s q id now) rows)
  with_existing s q id now rows (some e) =
      if e.auto_managed
      then (
        updated,
        update_registry e.registry_id (patched s (given q.signal_family) q.agent now) rows,
      )
      else (skipped, rows)

  unfoldable pub with_status :
      Option Status → Research → (id now : ℕ) → List Row → Outcome × List Row
  with_status none q id now rows = (no_op, rows)
  with_status (some s) q id now rows =
      with_existing s q id now rows
        (find_registry_by_research_key q.strategy_code q.symbol q.interval rows)

  -- `id` and `now` are what the database would give a new row
  unfoldable pub sync_from_research : Research → (id now : ℕ) → List Row → Outcome × List Row
  sync_from_research q id now rows =
      if str_eq q.strategy_code ""
      then (no_op, rows)
      else with_status (derive_status q.statistical_verdict q.walk_forward_verdict) q id now rows
