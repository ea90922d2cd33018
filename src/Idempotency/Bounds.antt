-- ===== src/Idempotency/Bounds.antt =====
-- The in-memory store over any sequence of calls.
use research_orchestrator.Prelude.{
  ℕ, ◌+◌, ◌≤◌, String, ◌≡◌, refl, Option, none, some, List, [], ◌∷◌, length, length-append, arith,
  Bool-cases, inl, inr,
}
use research_orchestrator.Idempotency.{
  Entry, max_entries, is_expired, has_key, find_entry, pop, moved, move_to_end, fetched, get, put,
}
use research_orchestrator.Idempotency.Recall.{IsKeyed, length-put}
use research_orchestrator.Idempotency.Invariant.{put-IsKeyed, get-IsKeyed}

-- One call of the store.
pub data Call {ℓ} (A : Type ℓ) : Type ℓ where
  read : (agent key : String) (now : ℕ) → Call A
  write : (agent key : String) (now : ℕ) → A → Call A

module _ {ℓ} {A : Type ℓ} where
  abbrev pub serve : Call A → List (Entry A) → List (Entry A)
  serve (read agent key now) c = (get agent key now c).1
  serve (write agent key now v) c = put agent key now v c

  abbrev pub serve_all : List (Call A) → List (Entry A) → List (Entry A)
  serve_all [] c = c
  serve_all (call ∷ calls) c = serve_all calls (serve call c)

  length-pop :
      (agent key : String) (c : List (Entry A)) (e : Entry A)
      → find_entry agent key c ≡ some e
      → length (pop agent key c) + 1 ≡ length c
  unfolding find_entry pop
  length-pop agent key [] e h = ground (arith, h)
  length-pop agent key (x ∷ xs) e h = elim (Bool-cases (has_key agent key x)) [
    | inl g ↦ rw g (omega arith)
    | inr g ↦ rw g (ground (arith, g, h, length-pop agent key xs e))
  ]

  length-fetched :
      (agent key : String) (now : ℕ) (c : List (Entry A)) (o : Option (Entry A))
      → find_entry agent key c ≡ o
      → length (fetched agent key now o c).1 ≤ length c
  unfolding fetched move_to_end
  length-fetched agent key now c none h = omega arith
  length-fetched agent key now c (some e) h = elim (Bool-cases (is_expired now e.inserted_at)) [
    | inl x ↦ rw x (omega (arith, length-pop agent key c e h))
    | inr x ↦
        rw (x, h)
          (unfold moved in
            omega (arith, length-pop agent key c e h, length-append (pop agent key c) (e ∷ [])))
  ]

  length-serve :
      (call : Call A) (c : List (Entry A))
      → length c ≤ max_entries
      → length (serve call c) ≤ max_entries
  unfolding get
  length-serve (read agent key now) c h =
      omega (arith, h, length-fetched agent key now c (find_entry agent key c) refl)
  length-serve (write agent key now v) c h = length-put agent key now v c

  serve-IsKeyed : (call : Call A) (c : List (Entry A)) → IsKeyed c → IsKeyed (serve call c)
  serve-IsKeyed (read agent key now) c k = get-IsKeyed agent key now c k
  serve-IsKeyed (write agent key now v) c k = put-IsKeyed agent key now v c k

  -- Any sequence of gets and puts, by any agents at any times, keeps a store that holds at most 2048
  -- entries, no two with one agent and key, such a store; the empty one with which the process
  -- starts is one.
  pub serve_all-IsKeyed :
      (calls : List (Call A)) (c : List (Entry A))
      → IsKeyed c
      → length c ≤ max_entries
      → IsKeyed (serve_all calls c) × (length (serve_all calls c) ≤ max_entries)
  serve_all-IsKeyed [] c k h = (k, h)
  serve_all-IsKeyed (call ∷ calls) c k h =
      serve_all-IsKeyed calls (serve call c) (serve-IsKeyed call c k) (length-serve call c h)
