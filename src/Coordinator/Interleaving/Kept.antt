-- ===== src/Coordinator/Interleaving/Kept.antt =====
-- What each part of a coroutine does to the fields that tell who uses the connection.
use haos_aqara.Base.{
  ◌≡◌, refl, ap, ◌∙◌, subst, sym, Bool, true, false, Option, none, some, arith, is_some,
  if◌then◌else◌,
}
use haos_aqara.Errors.{
  Result, ok, err, aqara, library, cancelled, authentication, bluetooth_unavailable,
  presence_required,
}
use haos_aqara.Errors
use haos_aqara.Exec.{catch}
use haos_aqara.Boundary.{Callback, Context}
use haos_aqara.Settings.Data.{ReadName, Value}
use haos_aqara.Coordinator.State.{Coordinator, Operation, Handle, World}
use haos_aqara.Coordinator.Callbacks.{preempt_listen, run_callback, publish}
use haos_aqara.Coordinator.Callbacks.Frame.{Core, run_callback-core}
use haos_aqara.Coordinator.Read.{
  set_lock, note_error, apply_read, store_settings, finish_read, apply_and_publish,
}
use haos_aqara.Coordinator.Operation.{set_locked, apply_value, begin, finish, on_error}
use haos_aqara.Coordinator.Refresh.{
  async_start_realtime, async_stop_realtime, async_start_battery, async_stop_battery,
}
use haos_aqara.Coordinator.Refresh.Tasks.{
  Action, act, start_realtime, stop_realtime, start_battery, stop_battery,
}
use haos_aqara.Coordinator.Interleaving.{
  Want, operation, read, listen, Stretch, applied, observed, shown, ended, Outcome, ask, start,
  go_on, stop, refuse,
}

-- The lock, the operation that is in progress, the last one, and the task of the held listen.
pub record Marks : Type 0 where
  pub locked : Bool
  pub in_progress : Bool
  pub last : Option Operation
  pub handle : Option Handle

abbrev pub marks : Coordinator → Marks
marks self = record {
  locked = self.operation_lock;
  in_progress = self.operation_in_progress;
  last = self.last_operation;
  handle = self.listen_handle;
}

-- The marks of a free lock, and of one that an operation, a read or the listen holds.
abbrev pub Serves : Option Want → Marks → Type 0
Serves none m = (m.locked ≡ false) × (m.in_progress ≡ false) × (m.handle ≡ none)
Serves (some (operation op)) m =
    (m.locked ≡ true) × (m.in_progress ≡ true) × (m.last ≡ some op) × (m.handle ≡ none)
Serves (some (read name)) m = (m.locked ≡ true) × (m.in_progress ≡ false) × (m.handle ≡ none)
Serves (some listen) m = (m.locked ≡ true) × (m.in_progress ≡ false) × (is_some m.handle ≡ true)

pub Serves-locked : (want : Want) (m : Marks) → Serves (some want) m → m.locked ≡ true
Serves-locked (operation op) m h = h.0
Serves-locked (read name) m h = h.0
Serves-locked listen m h = h.0

abbrev marks_of_core : Core → Marks
marks_of_core c = record {
  locked = c.operation_lock;
  in_progress = c.operation_in_progress;
  last = c.last_operation;
  handle = c.listen_handle;
}

marks-store_settings : (s : _) (self : Coordinator) → marks (store_settings s self).0 ≡ marks self
unfolding store_settings
marks-store_settings s self = ground arith

marks-apply_read :
    (name : ReadName) (value : Value name) (self : Coordinator)
    → marks (apply_read name value self).0 ≡ marks self
unfolding apply_read
marks-apply_read ReadName.state value self = ground arith
marks-apply_read ReadName.battery value self = ground arith
marks-apply_read ReadName.credentials value self = ground arith
marks-apply_read ReadName.door_type value self = marks-store_settings _ self
marks-apply_read ReadName.assist_turn value self = marks-store_settings _ self
marks-apply_read ReadName.pull_spring value self = marks-store_settings _ self
marks-apply_read ReadName.auxiliary_locking value self = marks-store_settings _ self
marks-apply_read ReadName.auto_lockup_relock_delay value self = marks-store_settings _ self
marks-apply_read ReadName.auto_lock_on_close_delay value self = marks-store_settings _ self
marks-apply_read ReadName.verify_fail_time value self = marks-store_settings _ self
marks-apply_read ReadName.alert_delay value self = marks-store_settings _ self
marks-apply_read ReadName.system_volume value self = marks-store_settings _ self
marks-apply_read ReadName.language value self = marks-store_settings _ self
marks-apply_read ReadName.alert_volume value self = marks-store_settings _ self
marks-apply_read ReadName.alarm_volume value self = marks-store_settings _ self
marks-apply_read ReadName.unrecognised value self = marks-store_settings _ self

module _ {E : Type 0} where
  marks-preempt_listen : (w : World E) → marks (preempt_listen w).self ≡ marks w.self
  unfolding preempt_listen
  marks-preempt_listen w = ground arith

  pub marks-ask : (want : Want) (w : World E) → marks (ask want w).self ≡ marks w.self
  unfolding ask
  marks-ask (operation op) w = marks-preempt_listen w
  marks-ask (read name) w = marks-preempt_listen w
  marks-ask listen w = refl

  pub marks-act : (a : Action) (w : World E) → marks (act a w).self ≡ marks w.self
  unfolding preempt_listen async_start_realtime async_stop_realtime async_start_battery
      async_stop_battery
  marks-act start_realtime w = ground arith
  marks-act stop_realtime w = ground arith
  marks-act start_battery w = ground arith
  marks-act stop_battery w = ground arith

  pub refuse-Serves :
      (w : World E) → Serves none (marks w.self) → Serves none (marks (refuse w).self)
  unfolding refuse
  refuse-Serves w (free, still, no_listen) = (refl, still, no_listen)

module _ {E : Type 0} (cx : Context E) where
  pub marks-run_callback :
      (c : Callback) (w : World E) → marks (run_callback cx c w).self ≡ marks w.self
  marks-run_callback c w = ap marks_of_core (run_callback-core cx c w)

  pub start-Serves :
      (want : Want) (w : World E)
      → Serves none (marks w.self)
      → Serves (some want) (marks (start cx want w).self)
  unfolding start begin publish set_lock
  start-Serves (operation op) w (free, still, no_listen) = (refl, refl, refl, no_listen)
  start-Serves (read name) w (free, still, no_listen) = (refl, still, no_listen)
  start-Serves listen w (free, still, no_listen) = (refl, still, refl)

  marks-set_locked :
      (op : Operation) (position : Option Bool) (self : Coordinator)
      → marks (set_locked op position self) ≡ marks self
  unfolding set_locked
  marks-set_locked op none self = refl
  marks-set_locked op (some position) self = refl

  pub go_on-Serves :
      {want : Want} (stretch : Stretch want) (w : World E)
      → Serves (some want) (marks w.self)
      → Serves (some want) (marks (go_on cx stretch w).self)
  unfolding go_on apply_value set_locked
  go_on-Serves (applied name none) w h = h
  go_on-Serves (applied {op} name (some value)) w h =
      subst (Serves (some (operation op))) (sym (marks-apply_read name value w.self)) h
  go_on-Serves (observed {op} none) w h = h
  go_on-Serves (observed {op} (some position)) w h = h
  go_on-Serves (shown effect) w h = h
  go_on-Serves ended w (held, still, listening) = (held, still, refl)

  marks-if :
      (changed : Bool) (v w : World E)
      → marks v.self ≡ marks w.self
      → marks (if changed then v else w).self ≡ marks w.self
  marks-if true v w same = same
  marks-if false v w same = refl

  marks-apply_and_publish :
      (name : ReadName) (value : Value name) (w : World E)
      → marks (apply_and_publish cx name value w).self ≡ marks w.self
  unfolding apply_and_publish publish
  marks-apply_and_publish name value w =
      marks-if (apply_read name value w.self).1 _ w (marks-apply_read name value w.self)

  marks-finish_read :
      (name : ReadName) (outcome : Outcome (read name)) (w : World E)
      → marks (finish_read cx name outcome w).1.self ≡ marks w.self
  unfolding finish_read note_error
  marks-finish_read name (err cancelled) w = refl
  marks-finish_read name (err (aqara authentication)) w = refl
  marks-finish_read name (err (aqara bluetooth_unavailable)) w = refl
  marks-finish_read name (err (aqara Errors.operation)) w = refl
  marks-finish_read name (err (aqara presence_required)) w = refl
  marks-finish_read name (err (library objects i)) w = refl
  marks-finish_read name (ok none) w = refl
  marks-finish_read name (ok (some value)) w = marks-apply_and_publish name value w

  marks-on_error :
      (outcome : Result (Unit {0})) (w : World E)
      → marks (catch (λ v. (outcome, v)) (on_error cx) w).1.self ≡ marks w.self
  unfolding on_error note_error
  marks-on_error (ok value) w = refl
  marks-on_error (err cancelled) w = refl
  marks-on_error (err (aqara authentication)) w = refl
  marks-on_error (err (aqara bluetooth_unavailable)) w = refl
  marks-on_error (err (aqara Errors.operation)) w = refl
  marks-on_error (err (aqara presence_required)) w = refl
  marks-on_error (err (library objects i)) w = refl

  pub stop-Serves :
      (want : Want) (outcome : Outcome want) (w : World E)
      → Serves (some want) (marks w.self)
      → Serves none (marks (stop cx want outcome w).self)
  unfolding stop finish publish set_lock on_error note_error
  stop-Serves (operation op) outcome w (held, running, last, no_listen) =
      (refl, refl, ap (λ m. m.handle) (marks-on_error outcome w) ∙ no_listen)
  stop-Serves (read name) outcome w (held, still, no_listen) =
      subst (Serves none) (sym (marks-finish_read name outcome (set_lock false w)))
        (refl, still, no_listen)
  stop-Serves listen outcome w (held, still, listening) = (refl, still, refl)
