-- ===== src/Rebalance/Bounds.antt =====
-- The bounds of the weights that `_apply_guardrails` settles on.
use research_orchestrator.Prelude.{
  if◌then◌else◌, ℕ, zero, suc, ◌<◌, ◌⊎◌, length, String, Bool, true, false, ◌≡◌, refl, inl, inr, [],
  ◌∷◌, Bool-cases, arith,
}
use research_orchestrator.Prelude.Dict.{Dict}
use research_orchestrator.Numbers.{Numbers}
use research_orchestrator.Rebalance.Guardrails.{
  State, Guarded, upper_bound, lower_bound, pin, keep, clamp, clamp_all, renormalised, pin_rest,
  settled, after_pass, factor_of, passed, passes, apply_guardrails, sum_weights, has_free,
}
use research_orchestrator.Rebalance.Clamping.{
  AllValues, insert-AllValues, merge-AllValues, IsWithin, BoundLaws, clamp_all-Quiet,
  scaled_all-AllValues, passed-length,
}

module _ (n : Numbers) where
  open n use {F, lt, le, mul, sub, of_int, literal}

  -- The budget that the pinned weights leave.
  abbrev pub budget_of : State F → F
  budget_of s = sub (literal 1 0) (sum_weights n s.pinned (of_int 0))

  abbrev pub start_of : Dict F → State F
  start_of raw = record { pinned = []; free = raw; n_low = 0; n_high = 0; breached = false }

  -- A state that the passes come to, each of which pins some weight.
  pub data IsReached (raw : Dict F) : State F → Type 0 where
    started : IsReached raw (start_of raw)
    pinned_some :
        (s : State F) → IsReached raw s → (passed n s).breached ≡ true → IsReached raw (passed n s)

  -- What the guardrails return. A pass has pinned nothing more: its weights. Or the weights can not
  -- be split further, as nothing is free, or no budget is left, or the free weights sum to nothing
  -- and are pinned at the least weight: then all are renormalised together.
  pub data IsGuarded (raw : Dict F) (g : Guarded F) : Type 0 where
    nothing : raw ≡ [] → g.weights ≡ [] → IsGuarded raw g
    bounded :
        (s : State F)
        → IsReached raw s
        → (passed n s).breached ≡ false
        → g ≡ settled n (factor_of n s) (passed n s)
        → AllValues (IsWithin n) g.weights
        → IsGuarded raw g
    rescaled :
        (s : State F)
        → IsReached raw s
        → AllValues (IsWithin n) s.pinned
        → (s.free ≡ []) ⊎ (le (budget_of s) (literal 0 0) ≡ true)
        → g ≡ renormalised n s
        → IsGuarded raw g
    degenerate :
        (s : State F)
        → IsReached raw s
        → le (sum_weights n s.free (of_int 0)) (literal 0 0) ≡ true
        → AllValues (IsWithin n) (pin_rest n s.free s).pinned
        → g ≡ renormalised n (pin_rest n s.free s)
        → IsGuarded raw g

  module _ (laws : BoundLaws n) where
    clamp-pinned :
        (factor : F) (code : String) (w : F) (s : State F)
        → AllValues (IsWithin n) s.pinned
        → AllValues (IsWithin n) (clamp n factor code w s).pinned
    unfolding clamp pin keep
    clamp-pinned factor code w s h = elim (Bool-cases (lt (upper_bound n) (mul w factor))) [
      | inl a ↦ rw a (insert-AllValues (IsWithin n) code _ s.pinned laws.greatest h)
      | inr a ↦ elim (Bool-cases (lt (mul w factor) (lower_bound n))) [
        | inl b ↦ rw (a, b) (insert-AllValues (IsWithin n) code _ s.pinned laws.least h)
        | inr b ↦ rw (a, b) h
      ]
    ]

    clamp_all-pinned :
        (factor : F) (d : Dict F) (s : State F)
        → AllValues (IsWithin n) s.pinned
        → AllValues (IsWithin n) (clamp_all n factor d s).pinned
    unfolding clamp_all
    clamp_all-pinned factor [] s h = h
    clamp_all-pinned factor ((code, w) ∷ d) s h =
        clamp_all-pinned factor d _ (clamp-pinned factor code w s h)

    passed-pinned :
        (s : State F) → AllValues (IsWithin n) s.pinned → AllValues (IsWithin n) (passed n s).pinned
    unfolding passed
    passed-pinned s h = clamp_all-pinned (factor_of n s) s.free _ h

    pin_rest-pinned :
        (d : Dict F) (s : State F)
        → AllValues (IsWithin n) s.pinned
        → AllValues (IsWithin n) (pin_rest n d s).pinned
    unfolding pin_rest
    pin_rest-pinned [] s h = h
    pin_rest-pinned ((code, w) ∷ d) s h =
        pin_rest-pinned d _ (insert-AllValues (IsWithin n) code _ s.pinned laws.least h)

    settled-bounded :
        (s : State F)
        → AllValues (IsWithin n) s.pinned
        → (passed n s).breached ≡ false
        → AllValues (IsWithin n) (settled n (factor_of n s) (passed n s)).weights
    unfolding settled passed
    settled-bounded s h b =
        let q = clamp_all-Quiet n (factor_of n s) s.free _ b in
        rw (q.pinned, q.free)
          (merge-AllValues (IsWithin n) s.pinned _ h
            (scaled_all-AllValues n (factor_of n s) s.free q.within))

    spent_of :
        (d : Dict F) (b : Bool) → (if has_free n d then b else true) ≡ true → (d ≡ []) ⊎ (b ≡ true)
    unfolding has_free
    spent_of [] b h = inl refl
    spent_of (e ∷ d) b h = inr h

    module _ (raw : Dict F) where
      either_way :
          (b : Bool) {x y : Guarded F}
          → (b ≡ true → IsGuarded raw x)
          → (b ≡ false → IsGuarded raw y)
          → IsGuarded raw (if b then x else y)
      either_way true p q = p refl
      either_way false p q = q refl

      passes-IsGuarded :
          (left : ℕ) (s : State F)
          → IsReached raw s
          → AllValues (IsWithin n) s.pinned
          → length s.free < left
          → IsGuarded raw (passes n left s)
      unfolding passes after_pass
      passes-IsGuarded zero s r h l = absurd (omega (arith, l))
      passes-IsGuarded (suc left) s r h l =
          either_way _ (λ e. rescaled s r h (spent_of s.free _ e) refl)
            λ _.
              either_way _ (λ e. degenerate s r e (pin_rest-pinned s.free s h) refl)
                λ _.
                  either_way _
                    (λ b.
                      passes-IsGuarded left (passed n s) (pinned_some s r b) (passed-pinned s h)
                        (omega (arith, passed-length n s b, l)))
                    (λ b. bounded s r b refl (settled-bounded s h b))

    -- The passes end before they are used up, and the weights that `_apply_guardrails` returns are
    -- those of the first pass that pins nothing: each is then between 0.05 and 0.50, the code's eps
    -- aside. Or some passes, each of which pins a weight, come to where nothing is free, no budget
    -- is left, or the free weights sum to nothing: then the pinned weights, which are so bounded,
    -- and those left free are renormalised together. It is assumed that 0.05 and 0.50 lie between
    -- these bounds in the order of floats.
    pub apply_guardrails-IsGuarded :
        (raw_weights : Dict F) → IsGuarded raw_weights (apply_guardrails n raw_weights)
    unfolding apply_guardrails
    apply_guardrails-IsGuarded [] = nothing refl refl
    apply_guardrails-IsGuarded (e ∷ raw) = passes-IsGuarded (e ∷ raw) _ _ started tt (omega arith)
