-- ===== src/Tick/Monad.antt =====
-- Coroutines of a tick: they read and write the world, and may raise. What was committed before a
-- raise stays committed, so the world comes back beside the error too.
use research_orchestrator.Prelude.{String, Bool}
use research_orchestrator.Tick.Tables.{World}

-- An OrchestratorError by its stable fields, with the tag that `_terminal` sets; or any other
-- exception, by its class.
pub data Failure : Type 0 where
  domain : (code : String) (retryable queue_terminalized : Bool) → Failure
  crash : (class_name : String) → Failure

pub data Result {ℓ} (A : Type ℓ) : Type ℓ where
  ok : A → Result A
  err : Failure → Result A

abbrev pub Coroutine : Type 0 → Type 0 → Type 0
Coroutine F A = World F → Result A × World F

module _ {F : Type 0} where
  abbrev pub pure : {A : Type 0} → A → Coroutine F A
  pure a w = (ok a, w)

  abbrev pub raise : {A : Type 0} → Failure → Coroutine F A
  raise e w = (err e, w)

  abbrev pub gets : {A : Type 0} → (World F → A) → Coroutine F A
  gets f w = (ok (f w), w)

  abbrev pub modify : (World F → World F) → Coroutine F (Unit {0})
  modify f w = (ok tt, f w)

  abbrev pub lift : {A : Type 0} → Result A → Coroutine F A
  lift r w = (r, w)

  infixl 5 ◌>>=◌ ◌>>◌
  abbrev pub after : {A B : Type 0} → Result A → (A → Coroutine F B) → Coroutine F B
  after (ok a) f w = f a w
  after (err e) f w = (err e, w)

  abbrev pub ◌>>=◌ : {A B : Type 0} → Coroutine F A → (A → Coroutine F B) → Coroutine F B
  ◌>>=◌ m f w = let (r, w') = m w in after r f w'

  abbrev pub ◌>>◌ : {A B : Type 0} → Coroutine F A → Coroutine F B → Coroutine F B
  m >> k = m >>= λ _. k
