-- ===== src/Registry/Table.antt =====
-- repo/strategy_registry.py: the statements on the table strategy_research_registry that the sync
-- of the research loop uses. A row holds the columns that the sync reads or writes; a table is the
-- list of its rows.
use research_orchestrator.Prelude.{
  ℕ, String, Bool, true, false, not, ◌&&◌, ◌||◌, List, [], ◌∷◌, ◌++◌, Option, none, some,
  if◌then◌else◌, any, ltb, ◌==◌, str_eq,
}
use research_orchestrator.Prelude.Dict.{or_else}

pub record Row : Type 0 where
  pub registry_id : ℕ
  pub slug : String
  pub promise_tier : String
  pub display_name : String
  pub signal_family : Option String
  pub strategy_code : Option String
  pub symbol : Option String
  pub interval_name : Option String
  pub verdict_tag : String
  pub lifecycle_status : String
  pub thesis : String
  pub is_offline_lead : Bool
  pub auto_managed : Bool
  pub updated_by : String
  pub updated_time : ℕ

-- (promise_tier, verdict_tag, lifecycle_status)
pub record Status : Type 0 where
  pub tier : String
  pub tag : String
  pub lifecycle : String

-- column = value, NULL for a NULL column or parameter
unfoldable pub equals : Option String → Option String → Option Bool
equals none value = none
equals (some c) none = none
equals (some c) (some v) = some (str_eq c v)

unfoldable pub is_true : Option Bool → Bool
is_true none = false
is_true (some b) = b

-- column IS NULL OR column = value
unfoldable pub tolerates : Option String → Option String → Bool
tolerates none value = true
tolerates (some c) value = is_true (equals (some c) value)

-- the WHERE clause of `find_registry_by_research_key`
unfoldable pub covers : (code : String) (symbol interval : Option String) → Row → Bool
covers code symbol interval r =
    is_true (equals r.strategy_code (some code))
    && tolerates r.symbol symbol
    && tolerates r.interval_name interval

-- the place of a Boolean in DESC NULLS LAST
unfoldable pub place : Option Bool → ℕ
place (some true) = 2
place (some false) = 1
place none = 0

-- the ORDER BY clause: `r` comes before `s`
unfoldable pub precedes : (symbol interval : Option String) → Row → Row → Bool
precedes symbol interval r s =
    let a = place (equals r.symbol symbol) in
    let b = place (equals s.symbol symbol) in
    ltb b a
    || (not (ltb a b)
        && ltb (place (equals s.interval_name interval)) (place (equals r.interval_name interval)))

unfoldable pub first_of : (symbol interval : Option String) → Row → Option Row → Row
first_of symbol interval r none = r
first_of symbol interval r (some s) = if precedes symbol interval s r then s else r

unfoldable pub find_registry_by_research_key :
    (code : String) (symbol interval : Option String) → List Row → Option Row
find_registry_by_research_key code symbol interval [] = none
find_registry_by_research_key code symbol interval (r ∷ rs) =
    let rest = find_registry_by_research_key code symbol interval rs in
    if covers code symbol interval r then some (first_of symbol interval r rest) else rest

-- `update_registry` with the patch of the sync: the status, and the family when it is given
unfoldable pub patched : Status → (family : Option String) (agent : String) (now : ℕ) → Row → Row
patched s family agent now r = record r {
  promise_tier = s.tier;
  verdict_tag = s.tag;
  lifecycle_status = s.lifecycle;
  signal_family = or_else family r.signal_family;
  updated_by = agent;
  updated_time = now;
}

unfoldable pub update_registry : ℕ → (Row → Row) → List Row → List Row
update_registry id patch [] = []
update_registry id patch (r ∷ rs) =
    let rest = update_registry id patch rs in
    if r.registry_id == id then patch r ∷ rest else r ∷ rest

-- UNIQUE (slug)
unfoldable pub has_slug : String → Row → Bool
has_slug slug r = str_eq r.slug slug

-- `insert_registry`, `none` for the UniqueViolationError
unfoldable pub insert_registry : Row → List Row → Option (List Row)
insert_registry r rows = if any (has_slug r.slug) rows then none else some (rows ++ (r ∷ []))
