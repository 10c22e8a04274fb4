-- ===== src/Client/Operate/Failures.antt =====
-- What the `except` clauses of the operations of custom_components/aqara_u200/client.py raise.
use haos_aqara.Base.{◌≡◌, sym, subst, Bool, true, false, if◌then◌else◌}
use haos_aqara.Errors.{
  Raised, Result, ok, err, aqara, cancelled, library, bluetooth_unavailable, authentication,
  operation, presence_required,
}
use haos_aqara.Errors.Chain.{is_auth_failure}
use haos_aqara.Coordinator.Operation.Outcome.{SanitizedResult, IsSanitized}
use haos_aqara.Client.Session.{operate_failed, listen_failed, ignore_all, ignore_exception}

pub ignore_exception-cancelled :
    (r : Result (Unit {0})) (e : Raised) → ignore_exception r ≡ err e → e ≡ cancelled
unfolding ignore_exception
ignore_exception-cancelled (ok x) e p = cc p
ignore_exception-cancelled (err cancelled) e p = cc p
ignore_exception-cancelled (err (aqara a)) e p = cc p
ignore_exception-cancelled (err (library objects i)) e p = cc p

pub ignore_all-cancelled :
    (r : Result (Unit {0})) (e : Raised) → ignore_all r ≡ err e → e ≡ cancelled
unfolding ignore_all
ignore_all-cancelled r e p = cc p

-- An exception of the integration, that does not say that the device cannot be reached.
abbrev IsReached : Raised → Type 0
IsReached (library objects i) = ⊥
IsReached (aqara bluetooth_unavailable) = ⊥
IsReached _ = Unit

abbrev pub FailsReached : {X : Type 0} → Result X → Type 0
FailsReached (ok x) = ⊥
FailsReached (err e) = IsReached e

abbrev pub FailsSanitized : {X : Type 0} → Result X → Type 0
FailsSanitized (ok x) = ⊥
FailsSanitized (err e) = IsSanitized e

module _ (X : Type 0) where
  chosen-IsReached :
      (auth : Bool)
      → FailsReached {X = X} (if auth then err (aqara authentication) else err (aqara operation))
  chosen-IsReached true = tt
  chosen-IsReached false = tt

  chosen-IsSanitized :
      (auth unreachable : Bool)
      → FailsSanitized {X = X} (
          if auth
          then err (aqara authentication)
          else if unreachable
          then err (aqara bluetooth_unavailable)
          else err (aqara operation))
  chosen-IsSanitized true unreachable = tt
  chosen-IsSanitized false true = tt
  chosen-IsSanitized false false = tt

  pub operate_failed-FailsReached : (e : Raised) → FailsReached (operate_failed {X = X} true e)
  unfolding operate_failed
  operate_failed-FailsReached cancelled = tt
  operate_failed-FailsReached (aqara e) = chosen-IsReached (is_auth_failure (aqara e))
  operate_failed-FailsReached (library objects i) =
      chosen-IsReached (is_auth_failure (library objects i))

  pub operate_failed-FailsSanitized :
      (started : Bool) (e : Raised) → FailsSanitized (operate_failed {X = X} started e)
  unfolding operate_failed
  operate_failed-FailsSanitized started cancelled = tt
  operate_failed-FailsSanitized started (aqara e) = chosen-IsSanitized (is_auth_failure (aqara e)) _
  operate_failed-FailsSanitized started (library objects i) =
      chosen-IsSanitized (is_auth_failure (library objects i)) _

  pub listen_failed-FailsReached :
      (started : Bool) (e : Raised) → FailsReached (listen_failed {X = X} started e)
  unfolding listen_failed
  listen_failed-FailsReached started cancelled = tt
  listen_failed-FailsReached started (aqara e) = chosen-IsReached (is_auth_failure (aqara e))
  listen_failed-FailsReached started (library objects i) =
      chosen-IsReached (is_auth_failure (library objects i))

  pub reached_sanitized : (r : Result X) → FailsReached r → FailsSanitized r
  reached_sanitized (ok x) h = h
  reached_sanitized (err cancelled) h = h
  reached_sanitized (err (aqara bluetooth_unavailable)) h = tt
  reached_sanitized (err (aqara authentication)) h = tt
  reached_sanitized (err (aqara operation)) h = tt
  reached_sanitized (err (aqara presence_required)) h = tt
  reached_sanitized (err (library objects i)) h = elim h [ ]

  pub not_unavailable : (r : Result X) → r ≡ err (aqara bluetooth_unavailable) → FailsReached r → ⊥
  not_unavailable r p h = subst FailsReached p h

  pub sanitized_of : (r z : Result X) → r ≡ z → FailsSanitized z → SanitizedResult r
  sanitized_of r (ok x) p h = elim h [ ]
  sanitized_of r (err e) p h = subst SanitizedResult (sym p) h
