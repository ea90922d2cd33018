-- ===== src/Idempotency/Expiry.antt =====
-- What the durable store returns after a put.
use research_orchestrator.Prelude.{
  ℕ, ◌+◌, String, str_eq, str_eq_iff, ◌≡◌, refl, ◌&&◌, Option, none, some, List, [], ◌∷◌, leb,
  if◌then◌else◌, arith, Bool-cases, inl, inr,
}
use research_orchestrator.Idempotency.{
  Stored, is_stored, find_stored, upsert, unless_expired, get_stored, put_stored, Json, absent,
  found, decoded, put_payload,
}

module _ {ℓ} {A : Type ℓ} where
  is_stored_iff :
      (agent key : String) (r : Stored A)
      → is_stored agent key r ≡ (str_eq r.agent_name agent && str_eq r.key key)
  unfolding is_stored
  is_stored_iff agent key r = refl

  -- An upsert changes the view of its own key alone.
  pub find_stored-upsert :
      (agent key : String) (n : Stored A) (t : List (Stored A))
      → find_stored agent key (upsert n t)
        ≡ (if is_stored agent key n then some n else find_stored agent key t)
  unfolding find_stored upsert is_stored
  find_stored-upsert agent key n [] = refl
  find_stored-upsert agent key n (r ∷ rs) = ground (
    arith,
    str_eq_iff r.agent_name n.agent_name,
    str_eq_iff r.key n.key,
    str_eq_iff r.agent_name agent,
    str_eq_iff r.key key,
    str_eq_iff n.agent_name agent,
    str_eq_iff n.key key,
    find_stored-upsert agent key n rs,
  )

module _ {V J : Type 0} (json : Json V J) where
  decoded_plain : (p : J) → json.as_text p ≡ none → decoded json p ≡ found p
  unfolding decoded
  decoded_plain p plain = rw plain refl

  stored_result :
      (agent key : String) (now : ℕ) (r : Stored J) (t : List (Stored J))
      → json.as_text r.response ≡ none
      → (unless_expired json agent key now (some r) t).0
        ≡ (if leb r.expires_at now then absent else found r.response)
  unfolding unless_expired
  stored_result agent key now r t plain = elim (Bool-cases (leb r.expires_at now)) [
    | inl h ↦ rw h refl
    | inr h ↦ rw h (decoded_plain r.response plain)
  ]

  -- What is returned does not depend on the other rows.
  same_result :
      (agent key : String) (now : ℕ) (o : Option (Stored J)) (t t' : List (Stored J))
      → (unless_expired json agent key now o t).0 ≡ (unless_expired json agent key now o t').0
  unfolding unless_expired
  same_result agent key now none t t' = refl
  same_result agent key now (some r) t t' = elim (Bool-cases (leb r.expires_at now)) [
    | inl h ↦ rw h refl
    | inr h ↦ rw h refl
  ]

  -- A get of any agent and key after a put of a value that json.dumps encodes and json.loads
  -- decodes to something that is no bare text: of the same agent and key it returns what the value
  -- decodes to until it expires and nothing from then on, whatever the table held, and of another
  -- agent or key what it would have returned without the put.
  pub get_stored-put_stored :
      (ttl : ℕ) (agent key : String) (now : ℕ) (v : V) (p : J) (agent₂ key₂ : String) (later : ℕ)
      (t : List (Stored J))
      → json.loads (json.dumps v) ≡ some p
      → json.as_text p ≡ none
      → (get_stored json agent₂ key₂ later (put_stored json ttl agent key now v t)).0 ≡ (
          if str_eq agent agent₂ && str_eq key key₂
          then (if leb (now + ttl) later then absent else found p)
          else (get_stored json agent₂ key₂ later t).0)
  unfolding get_stored put_stored put_payload
  get_stored-put_stored ttl agent key now v p agent₂ key₂ later t decodes plain =
      let n : Stored J = record {
        agent_name = agent;
        key = key;
        response = p;
        expires_at = now + ttl;
      } in
      rw (decodes, find_stored-upsert agent₂ key₂ n t, is_stored_iff agent₂ key₂ n)
        (elim (Bool-cases (str_eq agent agent₂ && str_eq key key₂)) [
          | inl h ↦ rw h (stored_result agent₂ key₂ later n (upsert n t) plain)
          | inr h ↦ rw h (same_result agent₂ key₂ later (find_stored agent₂ key₂ t) (upsert n t) t)
        ])
