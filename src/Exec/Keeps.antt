-- ===== src/Exec/Keeps.antt =====
-- Invariants of coroutines, with one rule for each way to build one.
use haos_aqara.Base.{Bool, true, false, if◌then◌else◌}
use haos_aqara.Errors.{Raised, Result, ok, err}
use haos_aqara.Exec.{Exec, pure, raise, gets, modify, attempt, catch, finally, when, ◌>>=◌}

-- The coroutine leaves the invariant `I` true where it was true, however it ends.
pub record Keeps {ℓ} {State Value : Type ℓ} (I : State → Type ℓ) (coroutine : Exec State Value)
    : Type ℓ where
  pub at : (before : State) → I before → I (coroutine before).1

module _ {State : Type 0} {I : State → Type 0} where
  pub Keeps-modify :
      (change : State → State)
      → ((before : State) → I before → I (change before))
      → Keeps I (modify change)
  Keeps-modify change kept = record { at = kept }

  pub Keeps-when : (test : Bool) (body : Exec State Unit) → Keeps I body → Keeps I (when test body)
  Keeps-when false body kept = record { at = λ before holds. holds }
  Keeps-when true body kept = kept

module _ {ℓ} {State Value : Type ℓ} {I : State → Type ℓ} where
  pub Keeps-attempt : (body : Exec State Value) → Keeps I body → Keeps I (attempt body)
  Keeps-attempt body kept = record { at = λ before holds. kept.at before holds }

  handled :
      (end : Result Value × State) (clauses : Raised → Exec State Value)
      → I end.1
      → ((e : Raised) → Keeps I (clauses e))
      → I (catch (λ _. end) clauses end.1).1
  handled (err e, now) clauses holds kept = (kept e).at now holds
  handled (ok value, now) clauses holds kept = holds

  pub Keeps-catch :
      (body : Exec State Value) (clauses : Raised → Exec State Value)
      → Keeps I body
      → ((e : Raised) → Keeps I (clauses e))
      → Keeps I (catch body clauses)
  Keeps-catch body clauses kept kept' = record {
    at = λ before holds. handled (body before) clauses (kept.at before holds) kept';
  }

  pub Keeps-gets : (read : State → Value) → Keeps I (gets read)
  Keeps-gets read = record { at = λ before holds. holds }

  pub Keeps-raise : (e : Raised) → Keeps I (raise {A = Value} e)
  Keeps-raise e = record { at = λ before holds. holds }

  pub Keeps-pure : (value : Value) → Keeps I (pure value)
  Keeps-pure value = record { at = λ before holds. holds }

  pub Keeps-if :
      (test : Bool) (first second : Exec State Value)
      → Keeps I first
      → Keeps I second
      → Keeps I (if test then first else second)
  Keeps-if false first second kept kept' = kept'
  Keeps-if true first second kept kept' = kept

module _ {ℓ} {State Value Value' : Type ℓ} (I : State → Type ℓ) where
  closed :
      (r : Result Value) (end : Result Value' × State)
      → I end.1
      → I (finally (λ _. (r, end.1)) (λ _. end) end.1).1
  closed r (err e, now) holds = holds
  closed r (ok value, now) holds = holds

module _ {ℓ} {State Value Value' : Type ℓ} {I : State → Type ℓ} where
  pub Keeps-finally :
      (body : Exec State Value) (cleanup : Exec State Value')
      → Keeps I body
      → Keeps I cleanup
      → Keeps I (finally body cleanup)
  Keeps-finally body cleanup kept kept' = record {
    at = λ before holds.
        closed I (body before).0 (cleanup (body before).1)
          (kept'.at (body before).1 (kept.at before holds));
  }

  continued :
      (end : Result Value × State) (rest : Value → Exec State Value')
      → I end.1
      → ((value : Value) → Keeps I (rest value))
      → I (◌>>=◌ (λ _. end) rest end.1).1
  continued (err e, now) rest holds kept = holds
  continued (ok value, now) rest holds kept = (kept value).at now holds

  pub Keeps-bind :
      (body : Exec State Value) (rest : Value → Exec State Value')
      → Keeps I body
      → ((value : Value) → Keeps I (rest value))
      → Keeps I (body >>= rest)
  Keeps-bind body rest kept kept' = record {
    at = λ before holds. continued (body before) rest (kept.at before holds) kept';
  }

pub ruleset keeps_rules = (
  Keeps-modify, Keeps-when, Keeps-attempt, Keeps-catch, Keeps-gets, Keeps-raise, Keeps-pure,
  Keeps-if, Keeps-finally, Keeps-bind,
)
