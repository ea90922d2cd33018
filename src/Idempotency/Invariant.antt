-- ===== src/Idempotency/Invariant.antt =====
-- The keys of the in-memory store.
use research_orchestrator.Prelude.{
  ℕ, String, str_eq_iff, ◌≡◌, refl, true, false, Option, none, some, List, [], ◌∷◌, ◌++◌, ltb,
  length, arith, Bool-cases, inl, inr,
}
use research_orchestrator.Idempotency.{
  Entry, max_entries, is_expired, has_key, find_entry, pop, moved, move_to_end, trim, fetched, get,
  put,
}
use research_orchestrator.Idempotency.Recall.{
  IsKeyed, find_entry-assign, pop-assign, find_entry-pop,
}

module _ {ℓ} {A : Type ℓ} where
  pop_absent :
      (agent key agent₂ key₂ : String) (c : List (Entry A))
      → find_entry agent key c ≡ none
      → find_entry agent key (pop agent₂ key₂ c) ≡ none
  unfolding find_entry pop
  pop_absent agent key agent₂ key₂ [] h = refl
  pop_absent agent key agent₂ key₂ (e ∷ es) h =
      ground (arith, h, pop_absent agent key agent₂ key₂ es)

  pub pop-IsKeyed :
      (agent key : String) (c : List (Entry A)) → IsKeyed c → IsKeyed (pop agent key c)
  unfolding pop
  pop-IsKeyed agent key [] k = tt
  pop-IsKeyed agent key (e ∷ es) k = elim (Bool-cases (has_key agent key e)) [
    | inl h ↦ rw h k.1
    | inr h ↦ rw h (pop_absent e.agent e.key agent key es k.0, pop-IsKeyed agent key es k.1)
  ]

  append_absent :
      (agent key : String) (c : List (Entry A)) (n : Entry A)
      → find_entry agent key c ≡ none
      → has_key agent key n ≡ false
      → find_entry agent key (c ++ n ∷ []) ≡ none
  unfolding find_entry
  append_absent agent key [] n h g = rw g refl
  append_absent agent key (e ∷ es) n h g = ground (arith, h, g, append_absent agent key es n)

  other_key : (e n : Entry A) → has_key n.agent n.key e ≡ false → has_key e.agent e.key n ≡ false
  unfolding has_key
  other_key e n h = ground (
    arith,
    h,
    str_eq_iff e.agent n.agent,
    str_eq_iff e.key n.key,
    str_eq_iff n.agent e.agent,
    str_eq_iff n.key e.key,
  )

  append-IsKeyed :
      (c : List (Entry A)) (n : Entry A)
      → find_entry n.agent n.key c ≡ none
      → IsKeyed c
      → IsKeyed (c ++ n ∷ [])
  unfolding find_entry
  append-IsKeyed [] n h k = (refl, tt)
  append-IsKeyed (e ∷ es) n h k = elim (Bool-cases (has_key n.agent n.key e)) [
    | inl g ↦ ground (arith, g, h)
    | inr g ↦ (
      append_absent e.agent e.key es n k.0 (other_key e n g),
      append-IsKeyed es n (ground (arith, g, h)) k.1,
    )
  ]

  trim-IsKeyed : (c : List (Entry A)) → IsKeyed c → IsKeyed (trim c)
  unfolding trim
  trim-IsKeyed [] k = tt
  trim-IsKeyed (e ∷ es) k = elim (Bool-cases (ltb max_entries (length (e ∷ es)))) [
    | inl l ↦ rw l (trim-IsKeyed es k.1)
    | inr l ↦ rw l k
  ]

  -- A put of any agent and key, at any time, leaves no two entries with one agent and key.
  pub put-IsKeyed :
      (agent key : String) (now : ℕ) (v : A) (c : List (Entry A))
      → IsKeyed c
      → IsKeyed (put agent key now v c)
  unfolding put move_to_end
  put-IsKeyed agent key now v c k =
      let n : Entry A = record { agent = agent; key = key; inserted_at = now; value = v } in
      rw (find_entry-assign n c, pop-assign n c)
        (unfold moved in
          trim-IsKeyed (pop agent key c ++ n ∷ []) (
            append-IsKeyed (pop agent key c) n (find_entry-pop agent key c k)
              (pop-IsKeyed agent key c k)))

  found_key :
      (agent key : String) (c : List (Entry A)) (e : Entry A)
      → find_entry agent key c ≡ some e
      → has_key agent key e ≡ true
  unfolding find_entry
  found_key agent key [] e h = ground (arith, h)
  found_key agent key (x ∷ xs) e h = ground (arith, h, found_key agent key xs e)

  named_by :
      (agent key : String) (e : Entry A)
      → has_key agent key e ≡ true
      → (e.agent ≡ agent) × (e.key ≡ key)
  unfolding has_key
  named_by agent key e h = ground (arith, h, str_eq_iff e.agent agent, str_eq_iff e.key key)

  fetched-IsKeyed :
      (agent key : String) (now : ℕ) (c : List (Entry A)) (o : Option (Entry A))
      → find_entry agent key c ≡ o
      → IsKeyed c
      → IsKeyed (fetched agent key now o c).1
  unfolding fetched move_to_end
  fetched-IsKeyed agent key now c none h k = k
  fetched-IsKeyed agent key now c (some e) h k = elim (Bool-cases (is_expired now e.inserted_at)) [
    | inl x ↦ rw x (pop-IsKeyed agent key c k)
    | inr x ↦
        rw (x, h)
          (unfold moved in
            append-IsKeyed (pop agent key c) e
              (rw
                (
                  (named_by agent key e (found_key agent key c e h)).0,
                  (named_by agent key e (found_key agent key c e h)).1,
                )
                (find_entry-pop agent key c k))
              (pop-IsKeyed agent key c k))
  ]

  -- A get, whether it finds nothing, an expired entry or one to return, leaves no two entries with
  -- one agent and key.
  pub get-IsKeyed :
      (agent key : String) (now : ℕ) (c : List (Entry A))
      → IsKeyed c
      → IsKeyed (get agent key now c).1
  unfolding get
  get-IsKeyed agent key now c k = fetched-IsKeyed agent key now c _ refl k
