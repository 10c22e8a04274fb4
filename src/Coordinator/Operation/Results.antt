-- ===== src/Coordinator/Operation/Results.antt =====
-- The result and the bolt position that an operation of custom_components/aqara_u200/coordinator.py
-- leaves.
use haos_aqara.Base.{subst, ◌≡◌, refl, sym, ap, ◌∙◌, Bool, false, Option, none, some, arith}
use haos_aqara.Errors.{
  Result, ok, err, aqara, cancelled, library, bluetooth_unavailable, authentication, operation,
  presence_required,
}
use haos_aqara.Exec.{Exec, catch, ◌>>=◌, modify}
use haos_aqara.Boundary.{Context, Call}
use haos_aqara.Coordinator.State.{World, Operation, is_lock}
use haos_aqara.Coordinator.Callbacks.{await, update, publish, preempt_listen}
use haos_aqara.Coordinator.Read.{set_lock}
use haos_aqara.Coordinator.Operation.{serialized, run_operation, set_locked, finish, on_error}
use haos_aqara.Coordinator.Operation.Outcome.{
  SanitizedResult, IsStarted, Ended, not_acquired, unreachable, body_ran, serialized-Ended,
}

module _ {E : Type 0} (cx : Context E) where
  on_error-Sanitized :
      {A : Type 0} (r : Result A × World E) → SanitizedResult (catch (λ _. r) (on_error cx) r.1).0
  unfolding on_error
  on_error-Sanitized (ok a, w) = tt
  on_error-Sanitized (err cancelled, w) = tt
  on_error-Sanitized (err (aqara bluetooth_unavailable), w) = tt
  on_error-Sanitized (err (aqara authentication), w) = tt
  on_error-Sanitized (err (aqara operation), w) = tt
  on_error-Sanitized (err (aqara presence_required), w) = tt
  on_error-Sanitized (err (library objects i), w) = tt

  Ended-Sanitized :
      (op : Operation) (body : Exec (World E) (Unit {0})) (w : World E)
      (q : Result (Unit {0}) × World E)
      → ((v : World E) → SanitizedResult (await cx cx.host.acquire v).0)
      → Ended cx op body w q
      → SanitizedResult q.0
  Ended-Sanitized op body w q waits (not_acquired e p r) =
      subst SanitizedResult (p ∙ sym r) (waits (preempt_listen w))
  Ended-Sanitized op body w q waits (unreachable u r p e) =
      subst SanitizedResult (sym (ap (λ x. x.0) e)) tt
  Ended-Sanitized op body w q waits (body_ran v s e) =
      subst SanitizedResult (sym (ap (λ x. x.0) e)) (on_error-Sanitized (body v))

  -- Whatever its body raises, a serialized operation lets only the integration's own exceptions and
  -- the cancelling of the task out, where the wait for the lock raises no others.
  pub serialized-Sanitized :
      (op : Operation) (body : Exec (World E) (Unit {0})) (w : World E)
      → ((v : World E) → SanitizedResult (await cx cx.host.acquire v).0)
      → SanitizedResult (serialized cx op body w).0
  serialized-Sanitized op body w waits =
      Ended-Sanitized op body w (serialized cx op body w) waits (serialized-Ended cx op body w)

-- The position that an actuation leaves: the observed one, else the one that was asked for.
unfoldable pub position : Operation → Option Bool → Bool
unfolding is_lock
position op (some observed) = observed
position op none = is_lock op

module _ {E : Type 0} (cx : Context E) where
  -- A run of `_async_run_operation` that succeeded, seen from its end.
  pub record Actuated (op : Operation) (action : Call E (Option Bool)) (w w' : World E)
      : Type 0 where
    pub start : World E
    pub started : IsStarted cx op w start
    pub observed : Option Bool
    pub answered : (await cx action start).0 ≡ ok observed
    pub is_locked : w'.self.is_locked ≡ some (position op observed)

  actuated :
      (op : Operation) (action : Call E (Option Bool)) (w v : World E)
      (r : Result (Option Bool) × World E)
      → IsStarted cx op w v
      → await cx action v ≡ r
      → (q : Result (Unit {0}) × World E)
      → q
        ≡ catch
            (◌>>=◌ (λ _. r) (λ observed. modify (update (set_locked op observed))))
            (on_error cx)
            v
      → q.0 ≡ ok tt
      → Actuated op action w (set_lock false (finish cx q.1))
  unfolding set_lock finish publish set_locked on_error position
  actuated op action w v (ok none, u) s p q e h = record {
    start = v;
    started = s;
    observed = none;
    answered = ap (λ x. x.0) p;
    is_locked = ap (λ x. x.1.self.is_locked) e;
  }
  actuated op action w v (ok (some b), u) s p q e h = record {
    start = v;
    started = s;
    observed = some b;
    answered = ap (λ x. x.0) p;
    is_locked = ap (λ x. x.1.self.is_locked) e;
  }
  actuated op action w v (err cancelled, u) s p q e h = absurd (ground arith)
  actuated op action w v (err (library objects i), u) s p q e h = absurd (ground arith)
  actuated op action w v (err (aqara authentication), u) s p q e h = absurd (ground arith)
  actuated op action w v (err (aqara a), u) s p q e h = absurd (ground arith)

  Ended-Actuated :
      (op : Operation) (action : Call E (Option Bool)) (w : World E)
      (q : Result (Unit {0}) × World E)
      → Ended cx op
          (◌>>=◌ (await cx action) (λ observed. modify (update (set_locked op observed))))
          w
          q
      → q.0 ≡ ok tt
      → Actuated op action w q.1
  Ended-Actuated op action w q (not_acquired e p r) h = absurd (ground arith)
  Ended-Actuated op action w q (unreachable u r p e) h = absurd (ground arith)
  Ended-Actuated op action w q (body_ran v s e) h =
      subst (Actuated op action w) (sym (ap (λ x. x.1) e))
        (actuated op action w v (await cx action v) s refl _ refl (sym (ap (λ x. x.0) e) ∙ h))

  -- If lock or unlock succeeds, the client was called once all was set up for it (the lock held, the
  -- operation published, the device reachable), it answered with a position or with none, and the
  -- state has that position, or the one that was asked for if there was none.
  pub run_operation-Actuated :
      (op : Operation) (action : Call E (Option Bool)) (w : World E)
      → (run_operation cx op action w).0 ≡ ok tt
      → Actuated op action w (run_operation cx op action w).1
  unfolding run_operation
  run_operation-Actuated op action w =
      Ended-Actuated op action w (run_operation cx op action w) (serialized-Ended cx op _ w)
