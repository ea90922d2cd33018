-- ===== src/House/Tests.antt =====
-- A book of two members, one of which has a row, and rows that must not change.
use research_orchestrator.Prelude.Updates.{update_where}
use research_orchestrator.Prelude.{
  ℕ, String, List, [], ◌∷◌, Option, none, some, ◌≡◌, refl, false, map, select,
}
use research_orchestrator.Numbers.Thousandths.{thousandths}
use research_orchestrator.House.{
  zeroed, synced, or_final, sync_all, is_book_source, has_weight, is_member_key, is_to_zero,
  member_key, row_key, is_book_row, book_rows, live_row, with_row, placed, is_pool_kind, is_active,
  classified, classify_book, reconcile_plan, zero_all, PoolRow, BookRow, apply_sync, active_members,
}
use research_orchestrator.House.Foreign.{is_foreign}
use research_orchestrator.House.Applied.{apply_sync-foreign}

-- the code alone stands for the key
abbrev code_key : String → String → String → String
code_key code symbol interval = code

abbrev member : (code : String) → Option ℕ → PoolRow ℕ
member code weight = record {
  strategy_code = code;
  symbol = "BTCUSDT";
  interval_name = "1h";
  pool_weight = weight;
  status = "active";
  kind = none;
}

abbrev row : ℕ → (account code : String) → Option String → BookRow ℕ
row id account code source = record {
  account_strategy_id = id;
  account_id = account;
  strategy_code = code;
  symbol = "BTCUSDT";
  interval_name = "1h";
  portfolio_weight = some 700;
  weight_source = source;
  is_deleted = false;
  updated_time = 0;
  updated_by = "jvm";
}

abbrev pool : List (PoolRow ℕ)
pool = member "LSR" (some 400) ∷ member "VBO" none ∷ member "VCB" (some 600) ∷ []

abbrev table : List (BookRow ℕ)
table =
    row 1 "book" "LSR" none
    ∷ row 2 "book" "MRO" (some "HOUSE_BOOK")
    ∷ row 3 "book" "DCB" (some "MANUAL")
    ∷ row 4 "alice" "LSR" (some "HRP")
    ∷ []

weights :
    map
      (λ r. r.portfolio_weight)
      (apply_sync thousandths code_key "book" "agent" false 9 pool table).rows
    ≡ some 400 ∷ some 0 ∷ some 700 ∷ some 700 ∷ []
unfolding apply_sync zero_all reconcile_plan classify_book classified active_members select
    is_active is_pool_kind placed with_row live_row book_rows is_book_row row_key member_key
    is_to_zero is_member_key has_weight is_book_source update_where sync_all or_final synced zeroed
weights = refl

apply_sync-foreign_example :
    select
      (is_foreign thousandths code_key "book" (active_members code_key pool))
      (apply_sync thousandths code_key "book" "agent" false 9 pool table).rows
    ≡ select (is_foreign thousandths code_key "book" (active_members code_key pool)) table
apply_sync-foreign_example =
    apply_sync-foreign thousandths code_key "book" "agent" false 9 pool table
      (refl, (refl, (refl, (refl, tt))))
