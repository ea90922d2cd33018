-- ===== src/Idempotency/Replays.antt =====
-- What a handler replays, over any store that keeps what it is given.
use research_orchestrator.Prelude.{
  ℕ, ◌+◌, ◌<◌, String, str_eq, ◌≡◌, ap, ◌∙◌, false, some, List, arith,
}
use research_orchestrator.Idempotency.{
  Entry, ttl_seconds, get, put, IdempotencyStore, sent_key, namespaced, looked_up,
  replay_cached_response, written, cache_response,
}
use research_orchestrator.Idempotency.Recall.{IsKeyed, get-put}

-- The contract of the protocol: on the states that a store reaches, a get within `ttl` of a put
-- returns the value.
pub record Keeps {S A : Type 0} (store : IdempotencyStore S A) (Valid : S → Type 0) (ttl : ℕ)
    : Type 0 where
  pub recalls :
      (agent key : String) (now later : ℕ) (v : A) (s : S)
      → Valid s
      → later < now + ttl
      → (store.get agent key later (store.put agent key now v s)).0 ≡ some v

abbrev pub memory_store : {A : Type 0} → IdempotencyStore (List (Entry A)) A
memory_store = record { get = λ a k n s. get a k n s; put = λ a k n v s. put a k n v s }

-- The store in memory keeps the contract over dictionaries.
pub memory_store-Keeps : (A : Type 0) → Keeps (memory_store {A = A}) IsKeyed ttl_seconds
memory_store-Keeps A = record {
  recalls =
      λ agent key now later v s valid h. get-put agent key now later v s valid ∙ ground (arith, h);
}

module _ {S A : Type 0} (store : IdempotencyStore S A) (Valid : S → Type 0) (ttl : ℕ)
    (keeps : Keeps store Valid ttl) where
  -- Over a store that keeps the contract, a handler that has cached its response under a header that
  -- is not empty replays exactly that response, to the same agent under the same prefix and header,
  -- within the store's time to live.
  pub replay-cache :
      (agent key_prefix k : String) (now later : ℕ) (v : A) (s : S)
      → Valid s
      → str_eq k "" ≡ false
      → later < now + ttl
      → (replay_cached_response store agent key_prefix later
          (some k)
          (cache_response store agent key_prefix now (some k) v s)).0
        ≡ (some v, some k)
  unfolding replay_cached_response cache_response sent_key looked_up written
  replay-cache agent key_prefix k now later v s valid h late = rw h (
      ap (λ o. (o, some k))
        (keeps.recalls agent (namespaced key_prefix k) now later v s valid late))
