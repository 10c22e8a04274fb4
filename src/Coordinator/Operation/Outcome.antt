-- ===== src/Coordinator/Operation/Outcome.antt =====
-- How the outcome of a serialized operation of custom_components/aqara_u200/coordinator.py follows
-- from its body.
use haos_aqara.Base.{◌≡◌, refl, ap, Bool, true, false, not, none, some, if◌then◌else◌}
use haos_aqara.Errors.{Raised, Result, ok, err, aqara, library, bluetooth_unavailable}
use haos_aqara.Exec.{Exec, raise, modify, catch, finally, ◌>>=◌, ◌>>◌}
use haos_aqara.Boundary.{Context}
use haos_aqara.Coordinator.State.{World, Operation}
use haos_aqara.Coordinator.Callbacks.{await, publish, preempt_listen}
use haos_aqara.Coordinator.Callbacks.Frame.{IsCoherent}
use haos_aqara.Coordinator.Read.{with_operation_lock, set_lock}
use haos_aqara.Coordinator.Operation.{serialized, begin, finish, on_error, run_body, locked_body}

-- The exceptions that the integration lets out: its own, and the cancelling of a task.
abbrev pub IsSanitized : Raised → Type 0
IsSanitized (library objects i) = ⊥
IsSanitized _ = Unit

abbrev pub SanitizedResult : {A : Type 0} → Result A → Type 0
SanitizedResult (ok a) = Unit
SanitizedResult (err e) = IsSanitized e

module _ {E : Type 0} (cx : Context E) where
  -- `v` is the state in which the body of an operation starts that was called in `w`.
  pub record IsStarted (op : Operation) (w v : World E) : Type 0 where
    pub acquired : World E
    pub waited : await cx cx.host.acquire (preempt_listen w) ≡ (ok tt, acquired)
    pub begun : v ≡ begin cx op (set_lock true acquired)
    pub held : v.self.operation_lock ≡ true
    pub progress : v.self.operation_in_progress ≡ true
    pub labelled : v.self.last_operation ≡ some op
    pub no_error : v.self.last_error_type ≡ none
    pub reachable : v.bluetooth.reachable ≡ true
    pub coherent : IsCoherent cx v

  begin-IsStarted :
      (op : Operation) (w u : World E)
      → await cx cx.host.acquire (preempt_listen w) ≡ (ok tt, u)
      → u.bluetooth.reachable ≡ true
      → IsStarted op w (begin cx op (set_lock true u))
  unfolding begin publish set_lock
  begin-IsStarted op w u waited reachable = record {
    acquired = u;
    waited = waited;
    begun = refl;
    held = refl;
    progress = refl;
    labelled = refl;
    no_error = refl;
    reachable = reachable;
    coherent = refl;
  }

  -- The ways in which a serialized operation ends, from a world `w`: the wait for the lock was cut
  -- short, the device was not reachable, or the body ran in a state `v` that was set up for it.
  pub data Ended (op : Operation) (body : Exec (World E) (Unit {0})) (w : World E)
      (q : Result (Unit {0}) × World E) : Type 0 where
    not_acquired :
        (e : Raised)
        → (await cx cx.host.acquire (preempt_listen w)).0 ≡ err e
        → q.0 ≡ err e
        → Ended op body w q
    unreachable :
        (u : World E)
        → u.bluetooth.reachable ≡ false
        → await cx cx.host.acquire (preempt_listen w) ≡ (ok tt, u)
        → q ≡ (err (aqara bluetooth_unavailable), set_lock false (set_lock true u))
        → Ended op body w q
    body_ran :
        (v : World E)
        → IsStarted op w v
        → q ≡ (
          (catch body (on_error cx) v).0,
          set_lock false (finish cx (catch body (on_error cx) v).1),
        )
        → Ended op body w q

  guarded-Ended :
      (op : Operation) (body : Exec (World E) (Unit {0})) (w u : World E) (reachable : Bool)
      → await cx cx.host.acquire (preempt_listen w) ≡ (ok tt, u)
      → u.bluetooth.reachable ≡ reachable
      → Ended op body w (
          finally
            (if not reachable then raise (aqara bluetooth_unavailable) else run_body cx op body)
            (modify (set_lock false))
            (set_lock true u))
  unfolding run_body set_lock
  guarded-Ended op body w u true p r =
      body_ran (begin cx op (set_lock true u)) (begin-IsStarted op w u p r) refl
  guarded-Ended op body w u false p r = unreachable u r p refl

  locked-Ended :
      (op : Operation) (body : Exec (World E) (Unit {0})) (w : World E)
      (r : Result (Unit {0}) × World E)
      → await cx cx.host.acquire (preempt_listen w) ≡ r
      → Ended op body w (
          ◌>>=◌
            (λ _. r)
            (λ _.
              modify (set_lock true) >> finally (locked_body cx op body) (modify (set_lock false)))
            w)
  unfolding locked_body set_lock
  locked-Ended op body w (err e, u) p = not_acquired e (ap (λ q. q.0) p) refl
  locked-Ended op body w (ok tt, u) p = guarded-Ended op body w u u.bluetooth.reachable p refl

  pub serialized-Ended :
      (op : Operation) (body : Exec (World E) (Unit {0})) (w : World E)
      → Ended op body w (serialized cx op body w)
  unfolding serialized with_operation_lock
  serialized-Ended op body w =
      locked-Ended op body w (await cx cx.host.acquire (preempt_listen w)) refl
