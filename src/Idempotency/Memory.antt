-- ===== src/Idempotency/Memory.antt =====
-- `InMemoryIdempotencyStore`: an ordered dictionary, the least recently used entry first. Times are
-- in seconds.
use research_orchestrator.Prelude.{
  ℕ, ◌+◌, String, str_eq, Bool, ◌&&◌, Option, none, some, List, [], ◌∷◌, ◌++◌, ltb, if◌then◌else◌,
  length,
}

abbrev pub max_entries : ℕ
max_entries = 2048

abbrev pub ttl_seconds : ℕ
ttl_seconds = 86400

pub record Entry {ℓ} (A : Type ℓ) : Type ℓ where
  pub agent : String
  pub key : String
  pub inserted_at : ℕ
  pub value : A

-- time.monotonic() - inserted_at > _TTL_SECONDS
unfoldable pub is_expired : (now inserted_at : ℕ) → Bool
is_expired now inserted_at = ltb (inserted_at + ttl_seconds) now

module _ {ℓ} {A : Type ℓ} where
  unfoldable pub has_key : (agent key : String) → Entry A → Bool
  has_key agent key e = str_eq e.agent agent && str_eq e.key key

  unfoldable pub find_entry : (agent key : String) → List (Entry A) → Option (Entry A)
  unfolding has_key
  find_entry agent key [] = none
  find_entry agent key (e ∷ es) = if has_key agent key e then some e else find_entry agent key es

  unfoldable pub pop : (agent key : String) → List (Entry A) → List (Entry A)
  unfolding has_key
  pop agent key [] = []
  pop agent key (e ∷ es) =
      let rest = pop agent key es in if has_key agent key e then es else e ∷ rest

  -- cache[(agent, key)] = …: a key that is there keeps its place
  unfoldable pub assign : Entry A → List (Entry A) → List (Entry A)
  unfolding has_key
  assign n [] = n ∷ []
  assign n (e ∷ es) = let rest = assign n es in if has_key n.agent n.key e then n ∷ es else e ∷ rest

  unfoldable pub moved : Option (Entry A) → (rest cache : List (Entry A)) → List (Entry A)
  moved none rest cache = cache
  moved (some e) rest cache = rest ++ e ∷ []

  unfoldable pub move_to_end : (agent key : String) → List (Entry A) → List (Entry A)
  unfolding moved find_entry pop
  move_to_end agent key c = moved (find_entry agent key c) (pop agent key c) c

  -- while len(cache) > _MAX_ENTRIES: cache.popitem(last=False)
  unfoldable pub trim : List (Entry A) → List (Entry A)
  trim [] = []
  trim (e ∷ es) = let rest = trim es in if ltb max_entries (length (e ∷ es)) then rest else e ∷ es

  unfoldable pub fetched :
      (agent key : String) (now : ℕ) → Option (Entry A) → List (Entry A) → Option A × List (Entry A)
  unfolding pop move_to_end is_expired
  fetched agent key now none c = (none, c)
  fetched agent key now (some e) c =
      if is_expired now e.inserted_at
      then (none, pop agent key c)
      else (some e.value, move_to_end agent key c)

  unfoldable pub get : (agent key : String) (now : ℕ) → List (Entry A) → Option A × List (Entry A)
  unfolding fetched find_entry
  get agent key now c = fetched agent key now (find_entry agent key c) c

  unfoldable pub put : (agent key : String) (now : ℕ) → A → List (Entry A) → List (Entry A)
  unfolding trim move_to_end assign
  put agent key now v c = trim (
      move_to_end agent key
        (assign (record { agent = agent; key = key; inserted_at = now; value = v }) c))
