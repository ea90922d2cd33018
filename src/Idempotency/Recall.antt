-- ===== src/Idempotency/Recall.antt =====
-- What the in-memory store returns after a put, and how large it grows.
use research_orchestrator.Prelude.{
  ℕ, ◌+◌, ◌≤◌, String, str_eq_iff, ◌≡◌, refl, ap, true, none, some, List, [], ◌∷◌, ◌++◌, ltb,
  if◌then◌else◌, length, arith, Bool-cases, inl, inr,
}
use research_orchestrator.Idempotency.{
  Entry, max_entries, ttl_seconds, is_expired, has_key, find_entry, pop, assign, moved, move_to_end,
  trim, fetched, get, put,
}

module _ {ℓ} {A : Type ℓ} where
  -- No two entries share an agent and a key, as in any dictionary.
  abbrev pub IsKeyed : List (Entry A) → Type ℓ
  IsKeyed [] = Unit
  IsKeyed (e ∷ es) = (find_entry e.agent e.key es ≡ none) × IsKeyed es

  has_own_key : (e : Entry A) → has_key e.agent e.key e ≡ true
  unfolding has_key
  has_own_key e = ground (arith, str_eq_iff e.agent e.agent, str_eq_iff e.key e.key)

  pub find_entry-assign :
      (n : Entry A) (c : List (Entry A)) → find_entry n.agent n.key (assign n c) ≡ some n
  unfolding find_entry assign
  find_entry-assign n [] = rw (has_own_key n) refl
  find_entry-assign n (e ∷ es) = elim (Bool-cases (has_key n.agent n.key e)) [
    | inl h ↦ rw (h, has_own_key n) refl
    | inr h ↦ rw (h, h) (find_entry-assign n es)
  ]

  pub pop-assign :
      (n : Entry A) (c : List (Entry A)) → pop n.agent n.key (assign n c) ≡ pop n.agent n.key c
  unfolding pop assign
  pop-assign n [] = rw (has_own_key n) refl
  pop-assign n (e ∷ es) = elim (Bool-cases (has_key n.agent n.key e)) [
    | inl h ↦ rw (h, has_own_key n) refl
    | inr h ↦ rw (h, h) (ap (λ t. e ∷ t) (pop-assign n es))
  ]

  -- Two entries that a key holds of share that key.
  same_key :
      (agent key : String) (e : Entry A) (c : List (Entry A))
      → has_key agent key e ≡ true
      → find_entry e.agent e.key c ≡ none
      → find_entry agent key c ≡ none
  unfolding has_key
  same_key agent key e c h g = ground (arith, str_eq_iff e.agent agent, str_eq_iff e.key key, h, g)

  pub find_entry-pop :
      (agent key : String) (c : List (Entry A))
      → IsKeyed c
      → find_entry agent key (pop agent key c) ≡ none
  unfolding find_entry pop
  find_entry-pop agent key [] k = refl
  find_entry-pop agent key (e ∷ es) k = elim (Bool-cases (has_key agent key e)) [
    | inl h ↦ rw h (same_key agent key e es h k.0)
    | inr h ↦ rw (h, h) (find_entry-pop agent key es k.1)
  ]

  find_entry_last :
      (n : Entry A) (c : List (Entry A))
      → find_entry n.agent n.key c ≡ none
      → find_entry n.agent n.key (c ++ n ∷ []) ≡ some n
  unfolding find_entry
  find_entry_last n [] h = rw (has_own_key n) refl
  find_entry_last n (e ∷ es) h = ground (arith, h, find_entry_last n es)

  -- The newest entry is never evicted.
  find_entry-trim :
      (n : Entry A) (c : List (Entry A))
      → find_entry n.agent n.key c ≡ none
      → find_entry n.agent n.key (trim (c ++ n ∷ [])) ≡ some n
  unfolding trim find_entry
  find_entry-trim n [] h = rw (has_own_key n) refl
  find_entry-trim n (e ∷ es) h = elim (Bool-cases (ltb max_entries (length (e ∷ (es ++ n ∷ []))))) [
    | inl l ↦ rw l (find_entry-trim n es (ground (arith, h)))
    | inr l ↦ rw l (find_entry_last n (e ∷ es) h)
  ]

  pub find_entry-put :
      (agent key : String) (now : ℕ) (v : A) (c : List (Entry A))
      → IsKeyed c
      → find_entry agent key (put agent key now v c)
        ≡ some (record { agent = agent; key = key; inserted_at = now; value = v })
  unfolding put move_to_end
  find_entry-put agent key now v c k =
      let n : Entry A = record { agent = agent; key = key; inserted_at = now; value = v } in
      rw (find_entry-assign n c, pop-assign n c)
        (unfold moved in find_entry-trim n (pop agent key c) (find_entry-pop agent key c k))

  fetched-some :
      (agent key : String) (now : ℕ) (e : Entry A) (c : List (Entry A))
      → (fetched agent key now (some e) c).0
        ≡ (if is_expired now e.inserted_at then none else some e.value)
  unfolding fetched
  fetched-some agent key now e c = elim (Bool-cases (is_expired now e.inserted_at)) [
    | inl h ↦ rw h refl
    | inr h ↦ rw h refl
  ]

  -- Over a dictionary, a get after a put returns the value that was put, whatever was there before
  -- and however full the store was, until the day has passed; from then on it returns nothing.
  pub get-put :
      (agent key : String) (now later : ℕ) (v : A) (c : List (Entry A))
      → IsKeyed c
      → (get agent key later (put agent key now v c)).0
        ≡ (if ltb (now + ttl_seconds) later then none else some v)
  unfolding get is_expired
  get-put agent key now later v c k = rw (find_entry-put agent key now v c k) (
      fetched-some agent key later
        (record { agent = agent; key = key; inserted_at = now; value = v }) _)

  length-trim : (c : List (Entry A)) → length (trim c) ≤ max_entries
  unfolding trim
  length-trim [] = omega arith
  length-trim (e ∷ es) = elim (Bool-cases (ltb max_entries (length (e ∷ es)))) [
    | inl l ↦ rw l (length-trim es)
    | inr l ↦ rw l (ground (arith, l))
  ]

  -- A put leaves at most 2048 entries, however many there were.
  pub length-put :
      (agent key : String) (now : ℕ) (v : A) (c : List (Entry A))
      → length (put agent key now v c) ≤ max_entries
  unfolding put
  length-put agent key now v c = length-trim (
      move_to_end agent key
        (assign (record { agent = agent; key = key; inserted_at = now; value = v }) c))
