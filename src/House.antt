-- ===== src/House.antt =====
-- services/house_book.py: the weights of the signal pool on the rows of the house book's account.
-- `key_of` is the f-string of a key.
pub mod Foreign
pub mod Applied
mod Tests
use research_orchestrator.Prelude.{
  ℕ, ◌+◌, String, Bool, true, false, not, ◌&&◌, ◌||◌, List, [], ◌∷◌, ◌++◌, Option, none, some,
  if◌then◌else◌, any, length, select, str_eq,
}
use research_orchestrator.Prelude.Updates.{update_where}
use research_orchestrator.Numbers.{Numbers}

-- a row of signal_pool
pub record PoolRow (F : Type 0) : Type 0 where
  pub strategy_code : String
  pub symbol : String
  pub interval_name : String
  pub pool_weight : Option F
  pub status : String
  -- admission_metrics->>'kind'
  pub kind : Option String

-- a row of account_strategy
pub record BookRow (F : Type 0) : Type 0 where
  pub account_strategy_id : ℕ
  pub account_id : String
  pub strategy_code : String
  pub symbol : String
  pub interval_name : String
  pub portfolio_weight : Option F
  pub weight_source : Option String
  pub is_deleted : Bool
  pub updated_time : ℕ
  pub updated_by : String

pub record ToSync (F : Type 0) : Type 0 where
  pub weight : F
  pub row : BookRow F

pub record Plan (F : Type 0) : Type 0 where
  pub to_sync : List (ToSync F)
  pub needs_weight : List (PoolRow F)
  pub unmaterialized : List (PoolRow F)
  pub to_zero : List (BookRow F)

pub record Sync (F : Type 0) : Type 0 where
  pub rows : List (BookRow F)
  pub n_synced : ℕ
  pub n_zeroed : ℕ
  pub journalled : Bool

unfoldable pub is_pool_kind : Option String → Bool
is_pool_kind none = true
is_pool_kind (some k) = str_eq k "signal_pool" || str_eq k "stream"

-- weight_source in _BOOK_WEIGHT_SOURCES
unfoldable pub is_book_source : Option String → Bool
is_book_source none = false
is_book_source (some s) = str_eq s "HOUSE_BOOK" || str_eq s "HOUSE_BOOK_EVICTED"

module _ {F : Type 0} (key_of : String → String → String → String) where
  unfoldable pub is_active : PoolRow F → Bool
  is_active m = str_eq m.status "active" && is_pool_kind m.kind

  unfoldable pub active_members : List (PoolRow F) → List (PoolRow F)
  active_members pool = select is_active pool

  unfoldable pub is_book_row : String → BookRow F → Bool
  is_book_row account r = str_eq r.account_id account && not r.is_deleted

  unfoldable pub book_rows : String → List (BookRow F) → List (BookRow F)
  book_rows account rows = select (is_book_row account) rows

  unfoldable pub member_key : PoolRow F → String
  member_key m = key_of m.strategy_code m.symbol m.interval_name

  unfoldable pub row_key : BookRow F → String
  row_key r = key_of r.strategy_code r.symbol r.interval_name

  unfoldable pub or_final : BookRow F → Option (BookRow F) → BookRow F
  or_final r none = r
  or_final r (some later) = later

  -- live_by_key.get(k): the last row with the key
  unfoldable pub live_row : String → List (BookRow F) → Option (BookRow F)
  live_row k [] = none
  live_row k (r ∷ rows) =
      let rest = live_row k rows in if str_eq (row_key r) k then some (or_final r rest) else rest

  unfoldable pub is_member_key : List (PoolRow F) → String → Bool
  is_member_key members k = any (λ m. str_eq (member_key m) k) members

  unfoldable pub with_row : PoolRow F → F → Option (BookRow F) → Plan F → Plan F
  with_row m w none plan = record plan { unmaterialized = m ∷ plan.unmaterialized }
  with_row m w (some r) plan = record plan {
    to_sync = record { weight = w; row = r } ∷ plan.to_sync;
  }

  unfoldable pub placed : PoolRow F → Option F → List (BookRow F) → Plan F → Plan F
  placed m none live plan = record plan { needs_weight = m ∷ plan.needs_weight }
  placed m (some w) live plan = with_row m w (live_row (member_key m) live) plan

  -- the loop over the members; `plan` is what comes of the later ones
  unfoldable pub classified : List (PoolRow F) → List (BookRow F) → Plan F → Plan F
  classified [] live plan = plan
  classified (m ∷ members) live plan = placed m m.pool_weight live (classified members live plan)

module _ (n : Numbers) (key_of : String → String → String → String) where
  open n use {F, lt, literal, round}

  -- float(portfolio_weight or 0) > 0
  unfoldable pub has_weight : Option F → Bool
  has_weight none = false
  has_weight (some w) = lt (literal 0 0) w

  unfoldable pub is_to_zero : List (PoolRow F) → BookRow F → Bool
  is_to_zero members r =
      not (is_member_key key_of members (row_key key_of r))
      && has_weight r.portfolio_weight
      && is_book_source r.weight_source

  unfoldable pub classify_book : List (PoolRow F) → List (BookRow F) → Plan F
  classify_book members live = classified key_of members live (record {
    to_sync = [];
    needs_weight = [];
    unmaterialized = [];
    to_zero = select (is_to_zero members) live;
  })

  unfoldable pub reconcile_plan : String → List (PoolRow F) → List (BookRow F) → Plan F
  reconcile_plan account pool rows =
      classify_book (active_members key_of pool) (book_rows key_of account rows)

  unfoldable pub synced : F → (agent : String) (now : ℕ) → BookRow F → BookRow F
  synced w agent now r = record r {
    portfolio_weight = some (round w 5);
    weight_source = some "HOUSE_BOOK";
    updated_time = now;
    updated_by = agent;
  }

  unfoldable pub zeroed : (agent : String) (now : ℕ) → BookRow F → BookRow F
  zeroed agent now r = record r {
    portfolio_weight = some (literal 0 0);
    weight_source = some "HOUSE_BOOK_EVICTED";
    updated_time = now;
    updated_by = agent;
  }

  -- the two loops of `apply_sync`
  unfoldable pub sync_all :
      (agent : String) (now : ℕ) → List (ToSync F) → List (BookRow F) → List (BookRow F)
  sync_all agent now [] rows = rows
  sync_all agent now (s ∷ to_sync) rows = sync_all agent now to_sync (
      update_where (λ r. r.account_strategy_id) s.row.account_strategy_id
        (synced s.weight agent now) rows)

  unfoldable pub zero_all :
      (agent : String) (now : ℕ) → List (BookRow F) → List (BookRow F) → List (BookRow F)
  zero_all agent now [] rows = rows
  zero_all agent now (z ∷ to_zero) rows =
      zero_all agent now to_zero
        (update_where (λ r. r.account_strategy_id) z.account_strategy_id (zeroed agent now) rows)

  unfoldable pub apply_sync :
      (account agent : String) (dry_run : Bool) (now : ℕ)
      → List (PoolRow F)
      → List (BookRow F)
      → Sync F
  apply_sync account agent dry_run now pool rows =
      let plan = reconcile_plan account pool rows in
      record {
        rows =
            if dry_run
            then rows
            else zero_all agent now plan.to_zero (sync_all agent now plan.to_sync rows);
        n_synced = length plan.to_sync;
        n_zeroed = length plan.to_zero;
        journalled = not dry_run;
      }
