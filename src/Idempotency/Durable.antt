-- ===== src/Idempotency/Durable.antt =====
-- `PostgresIdempotencyStore`: the table idempotency_record, with (agent_name, key) as its key. The
-- column response_jsonb holds a JSON value; how values become JSON is Python's json, a parameter.
use research_orchestrator.Prelude.{
  ℕ, ◌+◌, String, str_eq, Bool, ◌&&◌, not, Option, none, some, List, [], ◌∷◌, leb, if◌then◌else◌,
  select,
}

pub record Stored {ℓ} (A : Type ℓ) : Type ℓ where
  pub agent_name : String
  pub key : String
  pub response : A
  pub expires_at : ℕ

module _ {ℓ} {A : Type ℓ} where
  unfoldable pub is_stored : (agent key : String) → Stored A → Bool
  is_stored agent key r = str_eq r.agent_name agent && str_eq r.key key

  unfoldable pub find_stored : (agent key : String) → List (Stored A) → Option (Stored A)
  unfolding is_stored
  find_stored agent key [] = none
  find_stored agent key (r ∷ rs) =
      if is_stored agent key r then some r else find_stored agent key rs

  -- DELETE … WHERE agent_name = $1 AND key = $2
  unfoldable pub delete_stored : (agent key : String) → List (Stored A) → List (Stored A)
  unfolding is_stored
  delete_stored agent key t = select (λ r. not (is_stored agent key r)) t

  -- INSERT … ON CONFLICT (agent_name, key) DO UPDATE
  unfoldable pub upsert : Stored A → List (Stored A) → List (Stored A)
  unfolding is_stored
  upsert n [] = n ∷ []
  upsert n (r ∷ rs) =
      let rest = upsert n rs in if is_stored n.agent_name n.key r then n ∷ rs else r ∷ rest

-- Python's json, over values V and what JSON decodes to, J.
pub record Json (V J : Type 0) : Type 0 where
  -- json.dumps(value, default=str)
  pub dumps : V → String
  -- json.loads(text); `none` where it raises
  pub loads : String → Option J
  -- a decoded value that is itself a text
  pub as_text : J → Option String

-- What a `get` ends with: `None`, a response, or the error of json.loads on a text that is no JSON.
pub data Lookup (J : Type 0) : Type 0 where
  absent : Lookup J
  found : J → Lookup J
  malformed : Lookup J

module _ {V J : Type 0} (json : Json V J) where
  unfoldable pub loaded : Option J → Lookup J
  loaded none = malformed
  loaded (some p) = found p

  -- A payload that is a text was encoded twice, and is decoded once more.
  unfoldable pub decoded_as : Option String → J → Lookup J
  unfolding loaded
  decoded_as none p = found p
  decoded_as (some s) p = loaded (json.loads s)

  unfoldable pub decoded : J → Lookup J
  unfolding decoded_as
  decoded p = decoded_as (json.as_text p) p

  unfoldable pub unless_expired :
      (agent key : String) (now : ℕ)
      → Option (Stored J)
      → List (Stored J)
      → Lookup J × List (Stored J)
  unfolding delete_stored decoded
  unless_expired agent key now none t = (absent, t)
  unless_expired agent key now (some r) t =
      if leb r.expires_at now then (absent, delete_stored agent key t) else (decoded r.response, t)

  unfoldable pub get_stored :
      (agent key : String) (now : ℕ) → List (Stored J) → Lookup J × List (Stored J)
  unfolding unless_expired find_stored
  get_stored agent key now t = unless_expired agent key now (find_stored agent key t) t

  -- Where json.loads raises, nothing is written.
  unfoldable pub put_payload :
      (ttl : ℕ) (agent key : String) (now : ℕ) → Option J → List (Stored J) → List (Stored J)
  unfolding upsert
  put_payload ttl agent key now none t = t
  put_payload ttl agent key now (some p) t =
      upsert (record { agent_name = agent; key = key; response = p; expires_at = now + ttl }) t

  -- The value is stored as what it decodes to after json.dumps.
  unfoldable pub put_stored :
      (ttl : ℕ) (agent key : String) (now : ℕ) → V → List (Stored J) → List (Stored J)
  unfolding put_payload
  put_stored ttl agent key now v t = put_payload ttl agent key now (json.loads (json.dumps v)) t
