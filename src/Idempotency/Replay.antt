-- ===== src/Idempotency/Replay.antt =====
-- `replay_cached_response` and `cache_response`, over either store.
use research_orchestrator.Prelude.{ℕ, String, str_eq, Option, none, some, if◌then◌else◌}
use Prim.Native.String.{◌++◌}

-- The contract of a store at one time: `get` and `put` of the protocol.
pub record IdempotencyStore (S A : Type 0) : Type 0 where
  pub get : (agent key : String) (now : ℕ) → S → Option A × S
  pub put : (agent key : String) (now : ℕ) → A → S → S

-- `not idempotency_key`: a header that is missing or empty
unfoldable pub sent_key : Option String → Option String
sent_key none = none
sent_key (some k) = if str_eq k "" then none else some k

unfoldable pub namespaced : (key_prefix key : String) → String
namespaced key_prefix key = key_prefix ++ (":" ++ key)

module _ {S A : Type 0} (store : IdempotencyStore S A) (agent key_prefix : String) (now : ℕ) where
  unfoldable pub looked_up : Option String → S → (Option A × Option String) × S
  unfolding namespaced
  looked_up none s = ((none, none), s)
  looked_up (some k) s =
      let (cached, s') = store.get agent (namespaced key_prefix k) now s in ((cached, some k), s')

  unfoldable pub replay_cached_response :
      (header : Option String) → S → (Option A × Option String) × S
  unfolding looked_up sent_key
  replay_cached_response header s = looked_up (sent_key header) s

  unfoldable pub written : Option String → A → S → S
  unfolding namespaced
  written none v s = s
  written (some k) v s = store.put agent (namespaced key_prefix k) now v s

  unfoldable pub cache_response : (header : Option String) → A → S → S
  unfolding written sent_key
  cache_response header v s = written (sent_key header) v s
