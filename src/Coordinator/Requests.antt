-- ===== src/Coordinator/Requests.antt =====
-- The requests that the entities and the services make of the coordinator: the `async_` methods of
-- custom_components/aqara_u200/coordinator.py that run one operation each.
pub mod Masks
pub mod Toggled
pub mod Sanitized
use haos_aqara.Base.{
  ℕ, Bool, false, Option, none, some, String, ◌==◌, option_eq, string_eq, if◌then◌else◌,
}
use haos_aqara.Const.{
  data_presence_window_seconds, enrol_timeout_seconds, language_presence_window_seconds,
}
use haos_aqara.Errors.{aqara, operation}
use haos_aqara.Exec.{Exec, pure, raise, modify, finally, ◌>>=◌, ◌>>◌}
use haos_aqara.Boundary.{EnrolKind, EnrolReport, Context}
use haos_aqara.Settings.Data.{
  Toggle, touch_to_lock, close_to_lock, resume_lock, any_unlock_lock, Mask, ReadName,
}
use haos_aqara.Coordinator.State.{
  Coordinator, Operation, World, new_language, add_password, remove_credential, enrol,
  fired_keypad_press_required, notification_created, notification_dismissed,
}
use haos_aqara.Coordinator.Callbacks.{emit, await}
use haos_aqara.Coordinator.Operation.{
  serialized, run_operation, run_set_operation, ensure_presence, apply_value, notification_id,
}

-- `bool(cached.get(name, False))`
unfoldable pub bit : Option Bool → Bool
bit none = false
bit (some b) = b

pub record Toggles : Type 0 where
  pub touch_to_lock : Bool
  pub close_to_lock : Bool
  pub resume_lock : Bool
  pub any_unlock_lock : Bool

-- `cached = self._settings.auxiliary_locking or {}` and the mask over `_AUXILIARY_TOGGLES`.
unfoldable pub cached_mask : Option Mask → Toggles
unfolding bit
cached_mask none = record {
  touch_to_lock = false;
  close_to_lock = false;
  resume_lock = false;
  any_unlock_lock = false;
}
cached_mask (some cached) = record {
  touch_to_lock = bit cached.touch_to_lock;
  close_to_lock = bit cached.close_to_lock;
  resume_lock = bit cached.resume_lock;
  any_unlock_lock = bit cached.any_unlock_lock;
}

-- `mask[toggle] = enabled`
unfoldable pub set_toggle : Toggle → Bool → Toggles → Toggles
set_toggle touch_to_lock enabled mask = record mask { touch_to_lock = enabled }
set_toggle close_to_lock enabled mask = record mask { close_to_lock = enabled }
set_toggle resume_lock enabled mask = record mask { resume_lock = enabled }
set_toggle any_unlock_lock enabled mask = record mask { any_unlock_lock = enabled }

-- The mask that `_async_set_auxiliary_toggle` writes.
unfoldable pub written_mask : Toggle → Bool → Coordinator → Toggles
unfolding cached_mask set_toggle
written_mask toggle enabled self =
    set_toggle toggle enabled (cached_mask self.settings.auxiliary_locking)

-- `getattr(result, "kind", None) != "success"`, also where the result is `None`
unfoldable pub is_success : Option EnrolReport → Bool
is_success none = false
is_success (some report) = report.kind == some "success"

module _ {E : Type 0} (cx : Context E) where
  abbrev Request : Type 0
  Request = Exec (World E) Unit

  unfoldable pub async_lock : Request
  unfolding run_operation
  async_lock = run_operation cx Operation.lock cx.client.async_lock

  unfoldable pub async_unlock : Request
  unfolding run_operation
  async_unlock = run_operation cx Operation.unlock cx.client.async_unlock

  unfoldable pub async_set_alert_volume : ℕ → Request
  unfolding run_set_operation
  async_set_alert_volume level =
      run_set_operation cx Operation.set_alert_volume (cx.client.async_set_alert_volume level) none
        (some ReadName.alert_volume)

  unfoldable pub async_set_alarm_volume : (silent : Bool) → Request
  unfolding run_set_operation
  async_set_alarm_volume silent =
      run_set_operation cx Operation.set_alarm_volume (cx.client.async_set_alarm_volume silent) none
        (some ReadName.alarm_volume)

  unfoldable pub async_set_alert_delay : ℕ → Request
  unfolding run_set_operation
  async_set_alert_delay seconds =
      run_set_operation cx Operation.set_alert_delay (cx.client.async_set_alert_delay seconds) none
        none

  unfoldable pub async_set_verify_fail_time : ℕ → Request
  unfolding run_set_operation
  async_set_verify_fail_time seconds =
      run_set_operation cx Operation.set_verify_fail_time
        (cx.client.async_set_verify_fail_time seconds) none none

  unfoldable pub async_set_auto_lockup_relock_delay : ℕ → Request
  unfolding run_set_operation
  async_set_auto_lockup_relock_delay seconds =
      run_set_operation cx Operation.set_auto_lockup_relock_delay
        (cx.client.async_set_auto_lockup_relock_delay seconds) none none

  unfoldable pub async_set_auto_lock_on_close_delay : ℕ → Request
  unfolding run_set_operation
  async_set_auto_lock_on_close_delay seconds =
      run_set_operation cx Operation.set_auto_lock_on_close_delay
        (cx.client.async_set_auto_lock_on_close_delay seconds) none none

  unfoldable pub async_enable_auxiliary_locking_on_close : Request
  unfolding run_set_operation
  async_enable_auxiliary_locking_on_close =
      run_set_operation cx Operation.enable_auxiliary_locking_on_close
        cx.client.async_enable_auxiliary_locking_on_close none none

  unfoldable pub async_enable_auxiliary_locking_relock : Request
  unfolding run_set_operation
  async_enable_auxiliary_locking_relock =
      run_set_operation cx Operation.enable_auxiliary_locking_relock
        cx.client.async_enable_auxiliary_locking_relock none none

  unfoldable pub async_set_assist_turn : (enabled : Bool) → Request
  unfolding run_set_operation
  async_set_assist_turn enabled =
      run_set_operation cx Operation.set_assist_turn (cx.client.async_set_assist_turn enabled) none
        (some ReadName.assist_turn)

  -- `_async_set_auxiliary_toggle`: the mask is made before the operation starts.
  unfoldable pub set_auxiliary_toggle : Toggle → Bool → Request
  unfolding written_mask run_set_operation
  set_auxiliary_toggle toggle enabled w =
      let mask = written_mask toggle enabled w.self in
      run_set_operation cx (Operation.set_auxiliary toggle)
        (cx.client.async_set_auxiliary_locking mask.touch_to_lock mask.close_to_lock
          mask.resume_lock mask.any_unlock_lock)
        none (some ReadName.auxiliary_locking) w

  unfoldable pub async_set_auxiliary_close_to_lock : Bool → Request
  unfolding set_auxiliary_toggle
  async_set_auxiliary_close_to_lock = set_auxiliary_toggle close_to_lock

  unfoldable pub async_set_auxiliary_resume_lock : Bool → Request
  unfolding set_auxiliary_toggle
  async_set_auxiliary_resume_lock = set_auxiliary_toggle resume_lock

  unfoldable pub async_change_language : String → Request
  unfolding run_set_operation notification_id
  async_change_language language = do
    modify (
        emit (fired_keypad_press_required (new_language language) language_presence_window_seconds))
    modify (emit (notification_created (notification_id cx)))
    finally
        (run_set_operation cx (Operation.change_language language)
          (cx.client.async_change_language language) none (some ReadName.language))
        (modify (emit (notification_dismissed (notification_id cx))))

  unfoldable pub async_add_visitor_password : String → ℕ → Request
  unfolding run_set_operation
  async_add_visitor_password pin group_id =
      run_set_operation cx (Operation.add_visitor_password group_id)
        (cx.client.async_add_visitor_password pin group_id) (some add_password)
        (some ReadName.credentials)

  unfoldable pub async_delete_user : ℕ → Request
  unfolding run_set_operation
  async_delete_user user_id =
      run_set_operation cx (Operation.delete_user user_id) (cx.client.async_delete_user user_id)
        (some remove_credential) (some ReadName.credentials)

  -- The body of the `try` in `async_enrol_credential`.
  unfoldable pub enrol_body : ℕ → EnrolKind → Request
  unfolding ensure_presence is_success apply_value
  enrol_body user_group_id kind = do
    ensure_presence cx enrol data_presence_window_seconds
    result ← await cx (cx.client.async_enrol_credential user_group_id kind enrol_timeout_seconds)
    if is_success result then pure tt else raise (aqara operation)
    credentials ← await cx cx.client.async_read_user_table
    modify (apply_value ReadName.credentials credentials)

  unfoldable pub async_enrol_credential : ℕ → EnrolKind → Request
  unfolding serialized enrol_body
  async_enrol_credential user_group_id kind =
      serialized cx (Operation.enrol_credential kind) (enrol_body user_group_id kind)
