-- ===== src/Idempotency/Tests.antt =====
-- Both stores on sample calls, and the theorems at these inputs.
use research_orchestrator.Prelude.{
  ℕ, ◌+◌, ◌≤◌, str_eq, ◌≡◌, refl, ◌&&◌, none, some, List, [], ◌∷◌, ltb, leb, length, if◌then◌else◌,
  arith,
}
use research_orchestrator.Idempotency.{
  Entry, max_entries, ttl_seconds, get, put, find_entry, Stored, Json, absent, found, get_stored,
  put_stored, replay_cached_response, cache_response,
}
use research_orchestrator.Idempotency.Recall.{IsKeyed, get-put}
use research_orchestrator.Idempotency.Bounds.{Call, read, write, serve_all, serve_all-IsKeyed}
use research_orchestrator.Idempotency.Expiry.{get_stored-put_stored}
use research_orchestrator.Idempotency.Replays.{memory_store, memory_store-Keeps, replay-cache}

abbrev one_entry : List (Entry ℕ)
one_entry = record { agent = "quant"; key = "tick:1"; inserted_at = 5; value = 7 } ∷ []

abbrev no_rows : List (Stored ℕ)
no_rows = []

get-put_example :
    (get "quant" "tick:1" 60 (put "quant" "tick:1" 50 8 one_entry)).0
    ≡ (if ltb (50 + ttl_seconds) 60 then none else some 8)
unfolding find_entry
get-put_example = get-put "quant" "tick:1" 50 60 8 one_entry (refl, tt)

abbrev calls : List (Call ℕ)
calls = write "quant" "tick:2" 50 8 ∷ read "quant" "tick:1" 90000 ∷ []

serve_all-IsKeyed_example :
    IsKeyed (serve_all calls one_entry) × (length (serve_all calls one_entry) ≤ max_entries)
unfolding find_entry
serve_all-IsKeyed_example = serve_all-IsKeyed calls one_entry (refl, tt) (omega arith)

-- Values are numbers, encoded as one text each; 8 is encoded as the text that decodes to 80, as a
-- datetime is decoded to another value than itself.
abbrev json : Json ℕ ℕ
json = record {
  dumps = λ v. if leb v 8 then "eight" else "other";
  loads = λ s. if str_eq s "eight" then some 80 else none;
  as_text = λ p. none;
}

get_stored-put_stored_example :
    (get_stored json "quant" "tick:1" 60 (put_stored json 100 "quant" "tick:1" 50 8 no_rows)).0 ≡ (
      if str_eq "quant" "quant" && str_eq "tick:1" "tick:1"
      then (if leb (50 + 100) 60 then absent else found 80)
      else (get_stored json "quant" "tick:1" 60 no_rows).0)
get_stored-put_stored_example =
    get_stored-put_stored json 100 "quant" "tick:1" 50 8 80 "quant" "tick:1" 60 no_rows refl refl

replay-cache_example :
    (replay_cached_response
      (memory_store {A = ℕ})
      "quant"
      "tick"
      60
      (some "1")
      (cache_response (memory_store {A = ℕ}) "quant" "tick" 50 (some "1") 8 one_entry)).0
    ≡ (some 8, some "1")
unfolding find_entry
replay-cache_example =
    replay-cache memory_store _ ttl_seconds (memory_store-Keeps ℕ) "quant" "tick" "1" 50 60 8
      one_entry (refl, tt) refl (omega arith)
