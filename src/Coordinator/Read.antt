-- ===== src/Coordinator/Read.antt =====
-- The guarded BLE reads of custom_components/aqara_u200/coordinator.py.
pub mod Applied
use haos_aqara.Base.{
  ℕ, Bool, true, false, ◌&&◌, ◌||◌, not, Option, none, some, String, List, ◌==◌, ◌!=◌, option_eq,
  list_eq, pair_eq, bool_eq, nat_eq, string_eq, if◌then◌else◌, is_none, length,
}
use haos_aqara.Errors.{
  Result, ok, err, Raised, aqara, cancelled, library, authentication, type_name,
}
use haos_aqara.Exec.{Exec, pure, raise, gets, modify, attempt, finally, when, ◌>>=◌, ◌>>◌}
use haos_aqara.Boundary.{Call, Context}
use haos_aqara.Settings.Data.{
  LockSettings, ReadName, state, battery, door_type, assist_turn, pull_spring, auxiliary_locking,
  auto_lockup_relock_delay, auto_lock_on_close_delay, verify_fail_time, alert_delay, system_volume,
  language, alert_volume, alarm_volume, credentials, unrecognised, Value,
}
use haos_aqara.Settings.Compare.{settings_eq}
use haos_aqara.Coordinator.State.{Coordinator, World, reauth_started}
use haos_aqara.Coordinator.Callbacks.{emit, update, preempt_listen, publish, await}
use haos_aqara.Coordinator.Tally.{credentials_by_type}

-- `_is_unread`
unfoldable pub is_unread : ReadName → Coordinator → Bool
is_unread state self = is_none self.is_locked
is_unread battery self = is_none self.battery_percent
is_unread door_type self = is_none self.settings.door_type
is_unread assist_turn self = is_none self.settings.assist_turn
is_unread pull_spring self = is_none self.settings.pull_spring_enabled
is_unread auxiliary_locking self = is_none self.settings.auxiliary_locking
is_unread auto_lockup_relock_delay self = is_none self.settings.auto_lockup_relock_delay
is_unread auto_lock_on_close_delay self = is_none self.settings.auto_lock_on_close_delay
is_unread verify_fail_time self = is_none self.settings.verify_fail_time
is_unread alert_delay self = is_none self.settings.alert_delay
is_unread system_volume self = is_none self.settings.system_volume
is_unread language self = is_none self.settings.language
is_unread alert_volume self = is_none self.settings.alert_volume
is_unread alarm_volume self = is_none self.settings.alarm_volume
is_unread credentials self = is_none self.credential_count
is_unread unrecognised self = false

-- The `replace(self._settings, ...)` of each setting; the other names change no setting.
unfoldable pub replace : (name : ReadName) → Value name → LockSettings → LockSettings
replace state value s = s
replace battery value s = s
replace credentials value s = s
replace door_type value s = record s { door_type = some value }
replace assist_turn value s = record s { assist_turn = some value }
replace auxiliary_locking value s = record s { auxiliary_locking = some value }
replace auto_lockup_relock_delay value s = record s { auto_lockup_relock_delay = some value }
replace auto_lock_on_close_delay value s = record s { auto_lock_on_close_delay = some value }
replace verify_fail_time value s = record s { verify_fail_time = some value }
replace alert_delay value s = record s { alert_delay = some value }
replace system_volume value s = record s { system_volume = some value }
replace language value s = record s { language = some value }
replace alert_volume value s = record s { alert_volume = some value }
replace alarm_volume value s = record s { alarm_volume = some value }
replace pull_spring value s = record s {
  pull_spring_enabled = some value.0;
  pull_spring_retraction_s = some value.1;
}
replace unrecognised value s = record s {
  pull_spring_enabled = some value.0;
  pull_spring_retraction_s = some value.1;
}

-- `if new != self._settings: ...`
unfoldable pub store_settings : LockSettings → Coordinator → Coordinator × Bool
store_settings new self =
    if new != self.settings then (record self { settings = new }, true) else (self, false)

-- `_apply_read`: the new state, and whether it changed.
unfoldable pub apply_read : (name : ReadName) → Value name → Coordinator → Coordinator × Bool
unfolding store_settings replace
apply_read state value self =
    if some value != self.is_locked
    then (record self { is_locked = some value }, true)
    else (self, false)
apply_read battery value self =
    if some value != self.battery_percent
    then (record self { battery_percent = some value }, true)
    else (self, false)
apply_read credentials value self =
    let new_by_type = credentials_by_type value in
    if some (length value) != self.credential_count || some new_by_type != self.credentials_by_type
    then (
      record self {
        credential_count = some (length value);
        credentials_by_type = some new_by_type;
      },
      true,
    )
    else (self, false)
apply_read name value self = store_settings (replace name value self.settings) self

module _ {E : Type 0} where
  unfoldable pub set_lock : Bool → World E → World E
  set_lock held = update (λ self. record self { operation_lock = held })

  -- `self._last_error_type = type(err).__name__`
  unfoldable pub note_error : Raised → World E → World E
  note_error e = update (λ self. record self { last_error_type = some (type_name e) })

module _ {E : Type 0} (cx : Context E) where
  -- `_async_read_one`
  unfoldable pub read_one : (name : ReadName) → Call E (Option (Value name))
  read_one state = cx.client.async_read_lock_status
  read_one battery = cx.client.async_read_battery
  read_one door_type = cx.client.async_read_door_type
  read_one assist_turn = cx.client.async_read_assist_turn
  read_one auxiliary_locking = cx.client.async_read_auxiliary_locking
  read_one auto_lockup_relock_delay = cx.client.async_read_auto_lockup_delay
  read_one auto_lock_on_close_delay = cx.client.async_read_auto_lock_time
  read_one verify_fail_time = cx.client.async_read_verify_fail_time
  read_one alert_delay = cx.client.async_read_alert_delay
  read_one system_volume = cx.client.async_read_system_volume
  read_one language = cx.client.async_read_language
  read_one alert_volume = cx.client.async_read_alert_volume
  read_one alarm_volume = cx.client.async_read_alarm_volume
  read_one credentials = cx.client.async_read_user_table
  read_one pull_spring = cx.client.async_read_pull_spring
  read_one unrecognised = cx.client.async_read_pull_spring

  -- `async with self._operation_lock: body`
  unfoldable pub with_operation_lock : {A : Type 0} → Exec (World E) A → Exec (World E) A
  unfolding set_lock
  with_operation_lock body = do
    await cx cx.host.acquire
    modify (set_lock true)
    finally body (modify (set_lock false))

  -- What `_async_do_read` does with a value: `_apply_read`, and a new snapshot on a change.
  unfoldable pub apply_and_publish : (name : ReadName) → Value name → World E → World E
  apply_and_publish name value w =
      let (self', changed) = apply_read name value w.self in
      if changed then publish cx w.bluetooth (record w { self = self' }) else w

  -- The `except` clauses of `_async_do_read`, and what follows the `try`.
  unfoldable pub finish_read :
      (name : ReadName) → Result (Option (Value name)) → Exec (World E) Unit
  unfolding apply_and_publish note_error
  finish_read name (err cancelled) = raise cancelled
  finish_read name (err (aqara authentication)) =
      modify (λ w. emit reauth_started (note_error (aqara authentication) w))
  finish_read name (err (aqara e)) = pure tt
  finish_read name (err (library objects i)) = pure tt
  finish_read name (ok none) = pure tt
  finish_read name (ok (some value)) = modify (apply_and_publish name value)

  -- `_async_do_read`
  unfoldable pub do_read : ReadName → Exec (World E) Unit
  unfolding with_operation_lock finish_read
  do_read name = do
    reachable ← gets (λ w. w.bluetooth.reachable)
    if not reachable then pure tt else do
      modify preempt_listen
      outcome ← attempt (with_operation_lock (await cx (read_one name)))
      finish_read name outcome
