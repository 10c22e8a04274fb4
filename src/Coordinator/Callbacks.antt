-- ===== src/Coordinator/Callbacks.antt =====
-- The callbacks of `AqaraU200Coordinator`, and what an `await` does: the callbacks run before the
-- awaited call comes back.
pub mod Frame
use haos_aqara.Base.{
  Bool, true, false, ◌&&◌, ◌||◌, some, List, [], ◌∷◌, ◌++◌, ◌==◌, ◌!=◌, option_eq, bool_eq, nat_eq,
  string_eq, if◌then◌else◌, is_some,
}
use haos_aqara.Exec.{Exec}
use haos_aqara.Bluetooth.{BluetoothState, Advertisement, on_advertisement}
use haos_aqara.Boundary.{
  LockEvent, Callback, advertisement, lock_event, enrol_report, stop_battery, stop_realtime, Call,
  Context,
}
use haos_aqara.Coordinator.State.{
  Coordinator, build_snapshot, Effect, published, fired_lock_event, fired_enrol_progress, World,
  listen_cancelled, pending,
}

module _ {E : Type 0} where
  abbrev pub emit : Effect → World E → World E
  emit e w = record w { effects = w.effects ++ e ∷ [] }

  abbrev pub update : (Coordinator → Coordinator) → World E → World E
  update f w = record w { self = f w.self }

  -- `_preempt_listen`
  unfoldable pub preempt_listen : World E → World E
  preempt_listen w = elim w.self.listen_handle [ some pending ↦ emit listen_cancelled w | _ ↦ w ]

module _ {E : Type 0} (cx : Context E) where
  -- `async_set_updated_data(self._build_snapshot(bluetooth_state))`
  unfoldable pub publish : BluetoothState → World E → World E
  publish bluetooth_state w =
      let new = build_snapshot cx.client.control_enabled bluetooth_state w.self in
      emit (published new) (record w { snapshot = new })

  -- The manager stores the new state and hands it to `async_handle_bluetooth_state`.
  unfoldable pub handle_bluetooth_state : Advertisement → World E → World E
  unfolding publish
  handle_bluetooth_state ad w =
      let new = on_advertisement ad w.bluetooth in publish new (record w { bluetooth = new })

-- The updates of `_is_locked` and `_battery_percent` in `_on_realtime_event`, and `changed`.
unfoldable pub observe_locked : LockEvent → Coordinator → Coordinator × Bool
observe_locked event self =
    if is_some event.locked && event.locked != self.is_locked
    then (record self { is_locked = event.locked }, true)
    else (self, false)

unfoldable pub observe_battery : LockEvent → Coordinator → Coordinator × Bool
observe_battery event self =
    if is_some event.battery_percent && event.battery_percent != self.battery_percent
    then (record self { battery_percent = event.battery_percent }, true)
    else (self, false)

-- `event.kind in ("locked", "unlocked", "unknown")`
unfoldable pub is_notable : LockEvent → Bool
is_notable event = event.kind == "locked" || event.kind == "unlocked" || event.kind == "unknown"

module _ {E : Type 0} (cx : Context E) where
  unfoldable pub on_realtime_event : LockEvent → World E → World E
  unfolding observe_locked observe_battery is_notable publish
  on_realtime_event event w =
      let (self', locked_changed) = observe_locked event w.self in
      let (self'', battery_changed) = observe_battery event self' in
      let w' : World E = record w { self = self'' } in
      let w'' : World E = if is_notable event then emit (fired_lock_event event) w' else w' in
      if locked_changed || battery_changed then publish cx w''.bluetooth w'' else w''

  unfoldable pub run_callback : Callback → World E → World E
  unfolding handle_bluetooth_state on_realtime_event
  run_callback (advertisement ad) w = handle_bluetooth_state cx ad w
  run_callback (lock_event event) w = on_realtime_event event w
  run_callback (enrol_report report) w = emit (fired_enrol_progress report) w
  run_callback stop_battery w = update (λ self. record self { battery_stop = true }) w
  run_callback stop_realtime w = update (λ self. record self { realtime_stop = true }) w

  pub run_callbacks : List Callback → World E → World E
  unfolding run_callback
  run_callbacks [] w = w
  run_callbacks (c ∷ cs) w = run_callbacks cs (run_callback c w)

  -- `await call`
  unfoldable pub await : {A : Type 0} → Call E A → Exec (World E) A
  unfolding run_callbacks
  await call w =
      let (result, callbacks, env) = call w.env in
      (result, run_callbacks callbacks (record w { env = env }))
