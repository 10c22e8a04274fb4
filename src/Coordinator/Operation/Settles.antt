-- ===== src/Coordinator/Operation/Settles.antt =====
-- The lock, the progress flag and the snapshot at the end of a serialized operation of
-- custom_components/aqara_u200/coordinator.py.
use haos_aqara.Base.{◌≡◌, refl, ap, ◌∙◌, Bool, true, false, not, arith, if◌then◌else◌}
use haos_aqara.Errors.{Result, ok, err, aqara, bluetooth_unavailable}
use haos_aqara.Exec.{Exec, raise, modify, catch, finally, ◌>>=◌, ◌>>◌}
use haos_aqara.Exec.Keeps.{Keeps}
use haos_aqara.Boundary.{Context}
use haos_aqara.Coordinator.State.{World, Operation, build_snapshot}
use haos_aqara.Coordinator.Callbacks.{await, publish, preempt_listen}
use haos_aqara.Coordinator.Callbacks.Frame.{IsCoherent, core-await, await-IsCoherent}
use haos_aqara.Coordinator.Read.{with_operation_lock, set_lock}
use haos_aqara.Coordinator.Operation.{serialized, begin, finish, on_error, run_body, locked_body}

-- Between operations: the lock is free, none is in progress, and the entities see the fields as
-- they are.
pub record IsIdle {E : Type 0} (cx : Context E) (w : World E) : Type 0 where
  pub free : w.self.operation_lock ≡ false
  pub no_progress : w.self.operation_in_progress ≡ false
  pub coherent : IsCoherent cx w

-- The same while the lock is held.
pub record IsSettled {E : Type 0} (cx : Context E) (w : World E) : Type 0 where
  pub no_progress : w.self.operation_in_progress ≡ false
  pub coherent : IsCoherent cx w

module _ {E : Type 0} (cx : Context E) where
  pub Keeps-preempt_listen : Keeps (IsIdle cx) (modify preempt_listen)
  unfolding preempt_listen
  Keeps-preempt_listen = record { at = λ w h. ground arith }

  acquired-IsSettled :
      (w : World E)
      → IsIdle cx w
      → IsSettled cx (await cx cx.host.acquire w).1
        × ((await cx cx.host.acquire w).1.self.operation_lock ≡ false)
  acquired-IsSettled w h =
      let same = core-await cx cx.host.acquire w in
      (
        record {
          no_progress = ap (λ c. c.operation_in_progress) same ∙ h.no_progress;
          coherent = (await-IsCoherent cx cx.host.acquire).at w h.coherent;
        },
        ap (λ c. c.operation_lock) same ∙ h.free,
      )

  set_lock-IsSettled : (b : Bool) (v : World E) → IsSettled cx v → IsSettled cx (set_lock b v)
  unfolding set_lock build_snapshot
  set_lock-IsSettled b v h = record { no_progress = h.no_progress; coherent = h.coherent }

  unlocked-IsIdle : (v : World E) → IsSettled cx v → IsIdle cx (set_lock false v)
  unfolding set_lock build_snapshot
  unlocked-IsIdle v h = record { free = refl; no_progress = h.no_progress; coherent = h.coherent }

  entered :
      {A : Type 0} (body : Exec (World E) A)
      → Keeps (IsSettled cx) body
      → (r : Result (Unit {0}) × World E) → IsSettled cx r.1
      → r.1.self.operation_lock ≡ false
      → IsIdle cx
          (◌>>=◌
            (λ _. r)
            (λ _. modify (set_lock true) >> finally body (modify (set_lock false)))
            r.1).1
  entered body keeps (err e, v) h free = record {
    free = free;
    no_progress = h.no_progress;
    coherent = h.coherent;
  }
  entered body keeps (ok _, v) h free =
      unlocked-IsIdle (body (set_lock true v)).1
        (keeps.at (set_lock true v) (set_lock-IsSettled true v h))

  -- A body that settles leaves the coordinator idle when the lock is given back.
  pub with_operation_lock-IsIdle :
      {A : Type 0} (body : Exec (World E) A)
      → Keeps (IsSettled cx) body
      → Keeps (IsIdle cx) (with_operation_lock cx body)
  unfolding with_operation_lock
  with_operation_lock-IsIdle body keeps = record {
    at = λ w h.
        let (settled, free) = acquired-IsSettled w h in
        entered body keeps (await cx cx.host.acquire w) settled free;
  }

  finish-IsSettled : (v : World E) → IsSettled cx (finish cx v)
  unfolding finish publish
  finish-IsSettled v = record { no_progress = refl; coherent = refl }

  run_body-IsSettled :
      (op : Operation) (body : Exec (World E) (Unit {0})) (v : World E)
      → IsSettled cx (run_body cx op body v).1
  unfolding run_body
  run_body-IsSettled op body v = finish-IsSettled (catch body (on_error cx) (begin cx op v)).1

  guarded-IsSettled :
      (reachable : Bool) (op : Operation) (body : Exec (World E) (Unit {0})) (v : World E)
      → IsSettled cx v
      → IsSettled cx
          ((if not reachable then raise (aqara bluetooth_unavailable) else run_body cx op body) v).1
  guarded-IsSettled true op body v h = run_body-IsSettled op body v
  guarded-IsSettled false op body v h = h

  locked_body-IsSettled :
      (op : Operation) (body : Exec (World E) (Unit {0}))
      → Keeps (IsSettled cx) (locked_body cx op body)
  unfolding locked_body
  locked_body-IsSettled op body = record {
    at = λ v h. guarded-IsSettled v.bluetooth.reachable op body v h;
  }

  -- A serialized operation that starts on an idle coordinator leaves it idle, however it ends: the
  -- operation lock is free, no operation is in progress, and the published snapshot shows the state
  -- as it is.
  pub serialized-IsIdle :
      (op : Operation) (body : Exec (World E) (Unit {0})) (w : World E)
      → IsIdle cx w
      → IsIdle cx (serialized cx op body w).1
  unfolding serialized
  serialized-IsIdle op body w h =
      (with_operation_lock-IsIdle (locked_body cx op body) (locked_body-IsSettled op body)).at
        (preempt_listen w) (Keeps-preempt_listen.at w h)
