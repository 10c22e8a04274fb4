-- ===== src/Coordinator/Interleaving/Shown.antt =====
-- What the entities see of custom_components/aqara_u200/coordinator.py after each part of a coroutine.
use haos_aqara.Base.{
  ◌≡◌, refl, ap, ap₂, ◌∙◌, sym, Bool, true, false, ◌&&◌, ◌!=◌, option_eq, bool_eq, nat_eq, is_some,
  ◌||◌, if◌then◌else◌, none, some, arith, false≢true,
}
use haos_aqara.Errors
use haos_aqara.Errors.{
  Result, ok, err, aqara, library, cancelled, authentication, bluetooth_unavailable,
  presence_required,
}
use haos_aqara.Boundary.{
  Callback, advertisement, lock_event, enrol_report, stop_battery, stop_realtime, Context,
  LockEvent,
}
use haos_aqara.Settings.Data.{ReadName, Value}
use haos_aqara.Coordinator.State.{
  Coordinator, World, Effect, fired_lock_event, RuntimeSnapshot, build_snapshot,
}
use haos_aqara.Coordinator.Callbacks.{
  emit, preempt_listen, publish, observe_locked, observe_battery, is_notable, on_realtime_event,
  run_callback,
}
use haos_aqara.Coordinator.Read.{set_lock, note_error, finish_read, apply_and_publish, apply_read}
use haos_aqara.Coordinator.Operation.{finish}
use haos_aqara.Coordinator.Refresh.{
  async_start_realtime, async_stop_realtime, async_start_battery, async_stop_battery,
}
use haos_aqara.Coordinator.Refresh.Tasks.{Action, act}
use haos_aqara.Coordinator.Refresh.Tasks as Tasks
use haos_aqara.Coordinator.Interleaving.{Want, operation, read, listen, Outcome, ask, refuse}

-- The type of the last error left out.
abbrev pub but_error : RuntimeSnapshot → RuntimeSnapshot
but_error snapshot = record snapshot { last_error_type = none }

or-false : (a b : Bool) → (a || b) ≡ false → (a ≡ false) × (b ≡ false)
or-false true b h = cc
or-false false b h = (refl, h)

guard-same :
    (test : Bool) (new old : Coordinator) (r : Coordinator × Bool)
    → r ≡ (if test then (new, true) else (old, false))
    → r.1 ≡ false
    → r.0 ≡ old
guard-same true new old r e h = absurd (false≢true (sym h ∙ ap (λ x. x.1) e))
guard-same false new old r e h = ap (λ x. x.0) e

observe_locked-same :
    (event : LockEvent) (self : Coordinator)
    → (observe_locked event self).1 ≡ false
    → (observe_locked event self).0 ≡ self
unfolding observe_locked
observe_locked-same event self h =
    guard-same (is_some event.locked && event.locked != self.is_locked)
      (record self { is_locked = event.locked }) self (observe_locked event self) refl h

observe_battery-same :
    (event : LockEvent) (self : Coordinator)
    → (observe_battery event self).1 ≡ false
    → (observe_battery event self).0 ≡ self
unfolding observe_battery
observe_battery-same event self h =
    guard-same (is_some event.battery_percent && event.battery_percent != self.battery_percent)
      (record self { battery_percent = event.battery_percent }) self (observe_battery event self)
      refl h

module _ {E : Type 0} (effect : Effect) (w : World E) where
  emitted-self : (test : Bool) → (if test then emit effect w else w).self ≡ w.self
  emitted-self true = refl
  emitted-self false = refl

  emitted-bluetooth : (test : Bool) → (if test then emit effect w else w).bluetooth ≡ w.bluetooth
  emitted-bluetooth true = refl
  emitted-bluetooth false = refl

  emitted-snapshot : (test : Bool) → (if test then emit effect w else w).snapshot ≡ w.snapshot
  emitted-snapshot true = refl
  emitted-snapshot false = refl

module _ {E : Type 0} (cx : Context E) where
  -- The entities see the state as it is, but for the type of the last error.
  abbrev pub Shows : World E → Type 0
  Shows w =
      but_error w.snapshot ≡ but_error (build_snapshot cx.client.control_enabled w.bluetooth w.self)

  pub publish-Shows : (w : World E) → Shows (publish cx w.bluetooth w)
  unfolding publish
  publish-Shows w = refl

  pub ask-Shows : (want : Want) (w : World E) → Shows w → Shows (ask want w)
  unfolding ask preempt_listen build_snapshot
  ask-Shows (operation op) w h = ground arith
  ask-Shows (read name) w h = ground arith
  ask-Shows listen w h = h

  pub refuse-Shows : (w : World E) → Shows w → Shows (refuse w)
  unfolding refuse set_lock build_snapshot
  refuse-Shows w h = h

  pub if-Shows :
      (changed : Bool) (v w : World E) → Shows v → Shows w → Shows (if changed then v else w)
  if-Shows true v w h k = h
  if-Shows false v w h k = k

  -- A world that is published where its fields may have changed.
  pub event-Shows :
      (changed : Bool) (v w : World E)
      → v.snapshot ≡ w.snapshot
      → v.bluetooth ≡ w.bluetooth
      → (changed ≡ false → v.self ≡ w.self)
      → Shows w
      → Shows (if changed then publish cx v.bluetooth v else v)
  event-Shows true v w s b c h = publish-Shows v
  event-Shows false v w s b c h =
      ap but_error s
      ∙ h
      ∙ ap₂ (λ x y. but_error (build_snapshot cx.client.control_enabled x y)) (sym b) (sym (c refl))

  pub on_realtime_event-Shows :
      (event : LockEvent) (w : World E) → Shows w → Shows (on_realtime_event cx event w)
  unfolding on_realtime_event
  on_realtime_event-Shows event w h =
      let first = observe_locked event w.self in
      let second = observe_battery event first.0 in
      let w' : World E = record w { self = second.0 } in
      let noted : World E = if is_notable event then emit (fired_lock_event event) w' else w' in
      event-Shows (first.1 || second.1) noted w
        (emitted-snapshot (fired_lock_event event) w' (is_notable event))
        (emitted-bluetooth (fired_lock_event event) w' (is_notable event))
        (λ e.
          let (e1, e2) = or-false first.1 second.1 e in
          emitted-self (fired_lock_event event) w' (is_notable event)
          ∙ observe_battery-same event first.0 e2
          ∙ observe_locked-same event w.self e1)
        h

  pub run_callback-Shows : (c : Callback) (w : World E) → Shows w → Shows (run_callback cx c w)
  unfolding run_callback build_snapshot
  run_callback-Shows (advertisement ad) w h = refl
  run_callback-Shows (enrol_report report) w h = h
  run_callback-Shows stop_battery w h = h
  run_callback-Shows stop_realtime w h = h
  run_callback-Shows (lock_event event) w h = on_realtime_event-Shows event w h

  pub act-Shows : (a : Action) (w : World E) → Shows w → Shows (act a w)
  unfolding preempt_listen build_snapshot async_start_realtime async_stop_realtime
      async_start_battery async_stop_battery
  act-Shows Tasks.start_realtime w h = ground arith
  act-Shows Tasks.stop_realtime w h = ground arith
  act-Shows Tasks.start_battery w h = ground arith
  act-Shows Tasks.stop_battery w h = ground arith

  pub apply_and_publish-Shows :
      (name : ReadName) (value : Value name) (w : World E)
      → Shows w
      → Shows (apply_and_publish cx name value w)
  unfolding apply_and_publish publish build_snapshot
  apply_and_publish-Shows name value w h = if-Shows (apply_read name value w.self).1 _ w refl h

  pub finish_read-Shows :
      (name : ReadName) (outcome : Outcome (read name)) (w : World E)
      → Shows w
      → Shows (finish_read cx name outcome w).1
  unfolding finish_read note_error build_snapshot
  finish_read-Shows name (err cancelled) w h = h
  finish_read-Shows name (err (aqara authentication)) w h = h
  finish_read-Shows name (err (aqara bluetooth_unavailable)) w h = h
  finish_read-Shows name (err (aqara Errors.operation)) w h = h
  finish_read-Shows name (err (aqara presence_required)) w h = h
  finish_read-Shows name (err (library objects i)) w h = h
  finish_read-Shows name (ok none) w h = h
  finish_read-Shows name (ok (some value)) w h = apply_and_publish-Shows name value w h

  pub set_lock-Shows : (held : Bool) (w : World E) → Shows w → Shows (set_lock held w)
  unfolding set_lock build_snapshot
  set_lock-Shows held w h = h

  pub finish-Shows : (w : World E) → Shows (finish cx w)
  unfolding finish publish
  finish-Shows w = refl
