-- ===== src/Rebalance/Clamping.antt =====
-- One pass of `_apply_guardrails`: the weights that it pins, and those that it leaves free.
use research_orchestrator.Prelude.{
  ℕ, suc, ◌+◌, ◌≤◌, ◌<◌, length, length-append, String, Bool, true, false, ◌≡◌, refl, sym, ◌∙◌, inl,
  inr, [], ◌∷◌, ◌++◌, All, Bool-cases, arith, str_eq,
}
use mathlib.Core.List.{append_assoc, append-nil}
use research_orchestrator.Prelude.Dict.{Dict, insert, merge}
use research_orchestrator.Numbers.{Numbers}
use research_orchestrator.Rebalance.Guardrails.{
  State, min_weight, max_weight, upper_bound, lower_bound, pin, keep, clamp, clamp_all, scaled_all,
  factor_of, passed,
}

module _ {V : Type 0} (P : V → Type 0) where
  abbrev pub AllValues : Dict V → Type 0
  AllValues d = All (λ e. P e.1) d

  pub insert-AllValues :
      (k : String) (v : V) (d : Dict V) → P v → AllValues d → AllValues (insert k v d)
  unfolding insert
  insert-AllValues k v [] p h = (p, tt)
  insert-AllValues k v ((j, w) ∷ d) p h = elim (Bool-cases (str_eq j k)) [
    | inl e ↦ rw e (p, h.1)
    | inr e ↦ rw e (h.0, insert-AllValues k v d p h.1)
  ]

  pub merge-AllValues : (d e : Dict V) → AllValues d → AllValues e → AllValues (merge d e)
  unfolding merge
  merge-AllValues d [] h k = h
  merge-AllValues d ((j, v) ∷ e) h k =
      merge-AllValues (insert j v d) e (insert-AllValues j v d k.0 h) k.1

module _ (n : Numbers) where
  open n use {F, lt, le, mul, sub, of_int, literal}

  -- A weight within the bounds of the guardrails, the code's eps included.
  pub record IsWithin (w : F) : Type 0 where
    pub not_above : lt (upper_bound n) w ≡ false
    pub not_below : lt w (lower_bound n) ≡ false

  -- Both bounds are within the bounds.
  pub record BoundLaws : Type 0 where
    pub greatest : IsWithin (max_weight n)
    pub least : IsWithin (min_weight n)

  -- A pass that breaches nothing only moves the free weights over.
  pub record Quiet (factor : F) (d : Dict F) (s t : State F) : Type 0 where
    pub was : s.breached ≡ false
    pub pinned : t.pinned ≡ s.pinned
    pub free : t.free ≡ s.free ++ d
    pub within : All (λ e. IsWithin (mul e.1 factor)) d

  Quiet-clamp :
      (factor : F) (code : String) (w : F) (d : Dict F) (s : State F)
      → Quiet factor d (clamp n factor code w s) (clamp_all n factor d (clamp n factor code w s))
      → Quiet factor ((code, w) ∷ d) s (clamp_all n factor d (clamp n factor code w s))
  unfolding clamp pin keep
  Quiet-clamp factor code w d s = elim (Bool-cases (lt (upper_bound n) (mul w factor))) [
    | inl a ↦ rw a λ q. ground (arith, q.was)
    | inr a ↦ elim (Bool-cases (lt (mul w factor) (lower_bound n))) [
      | inl b ↦ rw (a, b) λ q. ground (arith, q.was)
      | inr b ↦
          rw (a, b)
            λ q. record {
              was = q.was;
              pinned = q.pinned;
              free = q.free ∙ append_assoc s.free ((code, w) ∷ []) d;
              within = (record { not_above = a; not_below = b }, q.within);
            }
    ]
  ]

  pub clamp_all-Quiet :
      (factor : F) (d : Dict F) (s : State F)
      → (clamp_all n factor d s).breached ≡ false
      → Quiet factor d s (clamp_all n factor d s)
  unfolding clamp_all
  clamp_all-Quiet factor [] s h = record {
    was = h;
    pinned = refl;
    free = sym (append-nil s.free);
    within = tt;
  }
  clamp_all-Quiet factor ((code, w) ∷ d) s h =
      Quiet-clamp factor code w d s (clamp_all-Quiet factor d (clamp n factor code w s) h)

  pub scaled_all-AllValues :
      (factor : F) (d : Dict F)
      → All (λ e. IsWithin (mul e.1 factor)) d
      → AllValues IsWithin (scaled_all n factor d)
  unfolding scaled_all
  scaled_all-AllValues factor [] h = tt
  scaled_all-AllValues factor (e ∷ d) h = (h.0, scaled_all-AllValues factor d h.1)

  abbrev count : Bool → ℕ
  count true = 1
  count false = 0

  count-true : (b : Bool) → b ≡ true → count b ≡ 1
  count-true true h = refl
  count-true false h = ground (arith, h)

  -- A weight that is pinned leaves the free ones.
  clamp-length :
      (factor : F) (code : String) (w : F) (s : State F)
      → length (clamp n factor code w s).free + count (clamp n factor code w s).breached
        ≤ suc (length s.free) + count s.breached
  unfolding clamp pin keep
  clamp-length factor code w s = elim (Bool-cases (lt (upper_bound n) (mul w factor))) [
    | inl a ↦ rw a (omega arith)
    | inr a ↦ elim (Bool-cases (lt (mul w factor) (lower_bound n))) [
      | inl b ↦ rw (a, b) (omega arith)
      | inr b ↦ rw (a, b) (omega (arith, length-append s.free ((code, w) ∷ [])))
    ]
  ]

  clamp_all-length :
      (factor : F) (d : Dict F) (s : State F)
      → length (clamp_all n factor d s).free + count (clamp_all n factor d s).breached
        ≤ length s.free + length d + count s.breached
  unfolding clamp_all
  clamp_all-length factor [] s = omega arith
  clamp_all-length factor ((code, w) ∷ d) s =
      omega
        (arith, clamp-length factor code w s, clamp_all-length factor d (clamp n factor code w s))

  pub passed-length :
      (s : State F) → (passed n s).breached ≡ true → length (passed n s).free < length s.free
  unfolding passed
  passed-length s b =
      let h = clamp_all-length (factor_of n s) s.free (record s { free = []; breached = false }) in
      omega (arith, h, count-true _ b)
