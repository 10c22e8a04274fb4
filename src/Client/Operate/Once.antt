-- ===== src/Client/Operate/Once.antt =====
-- The operations of custom_components/aqara_u200/client.py that hold one session, as their callers see
-- them.
use haos_aqara.Base.{
  ℕ, ◌+◌, ◌≤◌, ◌≡◌, refl, sym, subst, ◌∙◌, Bool, true, false, Option, none, some, arith,
}
use haos_aqara.Errors.{Raised, Result, err, aqara, bluetooth_unavailable}
use haos_aqara.Boundary.{Call}
use haos_aqara.Coordinator.Operation.Outcome.{SanitizedResult}
use haos_aqara.Client.Library.{Library}
use haos_aqara.Client.Session.{
  Adapter, Session, operate_failed, listen_failed, ignore_all, ignore_exception,
}
use haos_aqara.Client.Session.Ends.{openings, closings, uses, attempts, pauses}
use haos_aqara.Client.Session.Closes.{
  Closes, Source, answered, unreached, broken, interrupted, run_session-Closes,
}
use haos_aqara.Client.Operate.{operate_on, operate_session, listen_on, async_listen_realtime}
use haos_aqara.Client.Operate.Failures.{
  ignore_exception-cancelled, ignore_all-cancelled, FailsReached, FailsSanitized,
  operate_failed-FailsReached, operate_failed-FailsSanitized, listen_failed-FailsReached,
  reached_sanitized, not_unavailable, sanitized_of,
}

module _ {G E X : Type 0} where
  -- What a caller of an operation can rely on: connections are closed, at most one is made, the
  -- library is called at most once for the operation, and only known exceptions come out.
  pub record Guarded (s : Session G E) (q : Result X × Session G E) : Type 0 where
    pub closed : openings q.1.steps + closings s.steps ≡ closings q.1.steps + openings s.steps
    pub once : uses q.1.steps ≤ uses s.steps + 1
    pub tried : attempts q.1.steps ≤ attempts s.steps + 1
    pub unpaused : pauses q.1.steps ≡ pauses s.steps
    pub sanitized : SanitizedResult q.0

  module _ (failed : Bool → Raised → Result X)
      (reached : (e : Raised) → FailsReached (failed true e))
      (sanitizes : (started : Bool) (e : Raised) → FailsSanitized (failed started e)) where
    Source-unsent :
        (s : Session G E) (q : Result X × Session G E)
        → Source failed s q
        → q.0 ≡ err (aqara bluetooth_unavailable)
        → uses q.1.steps ≡ uses s.steps
    Source-unsent s q (answered x p n) u = cc (p, u)
    Source-unsent s q (unreached e p n) u = n
    Source-unsent s q (broken e p n) u =
        elim (not_unavailable X (failed true e) (sym p ∙ u) (reached e)) [ ]
    Source-unsent s q (interrupted p n) u = cc (p, u)

    Source-sanitized :
        (s : Session G E) (q : Result X × Session G E) → Source failed s q → SanitizedResult q.0
    Source-sanitized s q (answered x p n) = subst SanitizedResult (sym p) tt
    Source-sanitized s q (unreached e p n) =
        sanitized_of X q.0 (failed false e) p (sanitizes false e)
    Source-sanitized s q (broken e p n) = sanitized_of X q.0 (failed true e) p (sanitizes true e)
    Source-sanitized s q (interrupted p n) = subst SanitizedResult (sym p) tt

    Closes-Guarded :
        (s : Session G E) (q : Result X × Session G E) → Closes failed s q → Guarded s q
    Closes-Guarded s q h = record {
      closed = h.balanced;
      once = h.once;
      tried = omega (arith, h.tried);
      unpaused = h.paused;
      sanitized = Source-sanitized s q h.source;
    }

  refused-Guarded : (s : Session G E) → Guarded s (err (aqara bluetooth_unavailable), s)
  refused-Guarded s = record {
    closed = omega arith;
    once = omega arith;
    tried = omega arith;
    unpaused = refl;
    sanitized = tt;
  }

module _ {D G P A E X : Type 0} (lib : Library D G P A E) (self : Adapter A) where
  operate_on-Guarded :
      (ble_device : Option D) (call : P → Call E X) (s : Session G E)
      → Guarded s (operate_on lib self ble_device call s)
  unfolding operate_on
  operate_on-Guarded none call s = refused-Guarded s
  operate_on-Guarded (some ble_device) call s =
      Closes-Guarded operate_failed (operate_failed-FailsReached X)
        (operate_failed-FailsSanitized X) s _
        (run_session-Closes lib self operate_failed ignore_exception ignore_exception-cancelled
          ble_device call s)

  -- An operation that holds one session (lock, unlock, change of the language, enrolment) calls the
  -- library at most once, closes the connection that it opens, never waits, and lets only the
  -- integration's own exceptions and a cancellation out.
  pub operate_session-Guarded :
      (call : P → Call E X) (s : Session G E) → Guarded s (operate_session lib self call s)
  unfolding operate_session
  operate_session-Guarded call s =
      operate_on-Guarded (lib.async_ble_device_from_address s.env) call s

  operate_on-unsent :
      (ble_device : Option D) (call : P → Call E X) (s : Session G E)
      → (operate_on lib self ble_device call s).0 ≡ err (aqara bluetooth_unavailable)
      → uses (operate_on lib self ble_device call s).1.steps ≡ uses s.steps
  unfolding operate_on
  operate_on-unsent none call s p = refl
  operate_on-unsent (some ble_device) call s p =
      Source-unsent operate_failed (operate_failed-FailsReached X) (operate_failed-FailsSanitized X)
        s _
        (run_session-Closes lib self operate_failed ignore_exception ignore_exception-cancelled
          ble_device call s).source
        p

  -- If an operation ends with an `AqaraU200BluetoothUnavailableError`, the library was not called for
  -- it: nothing was sent to the lock.
  pub operate_session-unsent :
      (call : P → Call E X) (s : Session G E)
      → (operate_session lib self call s).0 ≡ err (aqara bluetooth_unavailable)
      → uses (operate_session lib self call s).1.steps ≡ uses s.steps
  unfolding operate_session
  operate_session-unsent call s = operate_on-unsent (lib.async_ble_device_from_address s.env) call s

  listen_on-Guarded :
      (ble_device : Option D) (call : P → Call E X) (s : Session G E)
      → Guarded s (listen_on lib self ble_device call s)
  unfolding listen_on
  listen_on-Guarded none call s = refused-Guarded s
  listen_on-Guarded (some ble_device) call s =
      Closes-Guarded listen_failed (listen_failed-FailsReached X true)
        (λ started e.
          reached_sanitized X (listen_failed started e) (listen_failed-FailsReached X started e))
        s _
        (run_session-Closes lib self listen_failed ignore_all ignore_all-cancelled ble_device call
          s)

module _ {D G P A E : Type 0} (lib : Library D G P A E) (self : Adapter A) where
  -- The real-time listen opens one connection at most and closes it, and lets only the integration's
  -- own exceptions and a cancellation out.
  pub async_listen_realtime-Guarded :
      (seconds : ℕ) (s : Session G E) → Guarded s (async_listen_realtime lib self seconds s)
  unfolding async_listen_realtime
  async_listen_realtime-Guarded seconds s =
      listen_on-Guarded lib self (lib.async_ble_device_from_address s.env)
        (λ client. lib.listen client seconds) s
