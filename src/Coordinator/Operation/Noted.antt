-- ===== src/Coordinator/Operation/Noted.antt =====
-- What a serialized operation notes of an exception, and what it makes of it: the `except` clauses of
-- custom_components/aqara_u200/coordinator.py.
use haos_aqara.Base.{
  ℕ, suc, ◌+◌, ◌≡◌, refl, sym, ap, ◌∙◌, Bool, true, false, Option, some, String, List, [], ◌∷◌,
  ◌++◌, arith, if◌then◌else◌,
}
use native.Mathlib.Nat.{add-zero}
use haos_aqara.Errors.{
  Raised, Result, ok, err, aqara, cancelled, library, bluetooth_unavailable, authentication,
  operation, presence_required, type_name,
}
use haos_aqara.Exec.{Exec, catch}
use haos_aqara.Boundary.{Context}
use haos_aqara.Coordinator.State.{
  World, Operation, Effect, reauth_started, published, build_snapshot,
}
use haos_aqara.Coordinator.Callbacks.{publish}
use haos_aqara.Coordinator.Read.{note_error}
use haos_aqara.Coordinator.Operation.{run_body, finish, begin, on_error}

-- How often a reauthentication was started.
pub reauths : List Effect → ℕ
reauths [] = 0
reauths (reauth_started ∷ effects) = suc (reauths effects)
reauths (e ∷ effects) = reauths effects

reauths-append : (xs ys : List Effect) → reauths (xs ++ ys) ≡ reauths xs + reauths ys
unfolding reauths
reauths-append [] ys = omega arith
reauths-append (reauth_started ∷ xs) ys = omega (arith, reauths-append xs ys)
reauths-append (published snapshot ∷ xs) ys = reauths-append xs ys
reauths-append (_ ∷ xs) ys = reauths-append xs ys

-- What comes out of an operation for an exception of its body.
unfoldable pub sanitized : Raised → Raised
sanitized (library objects i) = aqara operation
sanitized e = e

-- The error type that is noted, where one was noted before.
unfoldable pub noted : Raised → Option String → Option String
noted cancelled before = before
noted e before = some (type_name e)

unfoldable pub is_authentication : Raised → Bool
is_authentication (aqara authentication) = true
is_authentication _ = false

raised : Result (Unit {0}) → Raised → Raised
raised (ok _) e = e
raised (err e) _ = e

err-injective : {e e' : Raised} → ◌≡◌ {A = Result (Unit {0})} (err e) (err e') → e ≡ e'
unfolding raised
err-injective {e} h = ap (λ r. raised r e) h

module _ {E : Type 0} (cx : Context E) where
  -- What an operation notes of an exception that its body raised in `u`.
  pub record IsNoted (e : Raised) (u : World E) (q : Result (Unit {0}) × World E) : Type 0 where
    pub outcome : q.0 ≡ err (sanitized e)
    pub error_type : q.1.self.last_error_type ≡ noted e u.self.last_error_type
    pub reauthentications :
        reauths q.1.effects ≡ reauths u.effects + (if is_authentication e then 1 else 0)
    pub shown : q.1.snapshot.last_error_type ≡ q.1.self.last_error_type

  reauths-finish : (v : World E) → reauths (finish cx v).effects ≡ reauths v.effects
  unfolding finish publish reauths
  reauths-finish v = reauths-append v.effects _ ∙ add-zero (reauths v.effects)

  error-finish : (v : World E) → (finish cx v).self.last_error_type ≡ v.self.last_error_type
  unfolding finish publish
  error-finish v = refl

  shown-finish :
      (v : World E) → (finish cx v).snapshot.last_error_type ≡ (finish cx v).self.last_error_type
  unfolding finish publish build_snapshot
  shown-finish v = refl

  -- One clause of `except` after another.
  reauths-on_error :
      (e : Raised) (u : World E)
      → reauths (on_error cx {A = Unit {0}} e u).1.effects
        ≡ reauths u.effects + (if is_authentication e then 1 else 0)
  unfolding on_error note_error is_authentication reauths
  reauths-on_error cancelled u = omega arith
  reauths-on_error (library objects i) u = omega arith
  reauths-on_error (aqara bluetooth_unavailable) u = omega arith
  reauths-on_error (aqara operation) u = omega arith
  reauths-on_error (aqara presence_required) u = omega arith
  reauths-on_error (aqara authentication) u = reauths-append u.effects (reauth_started ∷ [])

  error-on_error :
      (e : Raised) (u : World E)
      → ((on_error cx {A = Unit {0}} e u).0 ≡ err (sanitized e))
        × ((on_error cx {A = Unit {0}} e u).1.self.last_error_type ≡ noted e u.self.last_error_type)
  unfolding on_error note_error sanitized noted
  error-on_error cancelled u = (refl, refl)
  error-on_error (library objects i) u = (refl, refl)
  error-on_error (aqara authentication) u = (refl, refl)
  error-on_error (aqara _) u = (refl, refl)

  note :
      (r : Result (Unit {0}) × World E) (e : Raised)
      → r.0 ≡ err e
      → IsNoted e r.1
          ((catch (λ _. r) (on_error cx) r.1).0, finish cx (catch (λ _. r) (on_error cx) r.1).1)
  note (ok _, u) e h = cc
  note (err e', u) e h = rw (sym (err-injective h)) (record {
    outcome = (error-on_error e' u).0;
    error_type = error-finish (on_error cx e' u).1 ∙ (error-on_error e' u).1;
    reauthentications = reauths-finish (on_error cx e' u).1 ∙ reauths-on_error e' u;
    shown = shown-finish (on_error cx e' u).1;
  })

  -- If the body of an operation raises, the exception comes out, a library's one as an
  -- `AqaraU200OperationError`; its type is noted and published, but for the cancelling of the task;
  -- and one reauthentication is started if it is a refusal of the credentials, else none.
  pub run_body-IsNoted :
      (op : Operation) (body : Exec (World E) (Unit {0})) (v : World E) (e : Raised)
      → (body (begin cx op v)).0 ≡ err e
      → IsNoted e (body (begin cx op v)).1 (run_body cx op body v)
  unfolding run_body
  run_body-IsNoted op body v e h = note (body (begin cx op v)) e h
