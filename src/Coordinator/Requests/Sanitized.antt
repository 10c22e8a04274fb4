-- ===== src/Coordinator/Requests/Sanitized.antt =====
-- How the requests of custom_components/aqara_u200/coordinator.py end.
use haos_aqara.Base.{ℕ, Bool, Option, String}
use haos_aqara.Boundary.{Call, EnrolKind, Context}
use haos_aqara.Settings.Data.{ReadName, Toggle}
use haos_aqara.Coordinator.State.{World, Operation, PressReason}
use haos_aqara.Coordinator.Callbacks.{await}
use haos_aqara.Coordinator.Operation.{run_operation, run_set_operation}
use haos_aqara.Coordinator.Operation.Outcome.{SanitizedResult}
use haos_aqara.Coordinator.Operation.Results.{serialized-Sanitized}
use haos_aqara.Coordinator.Requests.{
  async_lock, async_unlock, async_set_alert_volume, async_set_alarm_volume, async_set_alert_delay,
  async_set_verify_fail_time, async_set_auto_lockup_relock_delay,
  async_set_auto_lock_on_close_delay, async_enable_auxiliary_locking_on_close,
  async_enable_auxiliary_locking_relock, async_set_assist_turn, set_auxiliary_toggle,
  async_set_auxiliary_close_to_lock, async_set_auxiliary_resume_lock, async_add_visitor_password,
  async_delete_user, async_enrol_credential,
}

module _ {E : Type 0} (cx : Context E)
    (waits : (v : World E) → SanitizedResult (await cx cx.host.acquire v).0) where
  run_operation-Sanitized :
      (op : Operation) (action : Call E (Option Bool)) (w : World E)
      → SanitizedResult (run_operation cx op action w).0
  unfolding run_operation
  run_operation-Sanitized op action w = search serialized-Sanitized

  run_set_operation-Sanitized :
      {A : Type 0} (op : Operation) (action : Call E A) (press : Option PressReason)
      (post_read : Option ReadName) (w : World E)
      → SanitizedResult (run_set_operation cx op action press post_read w).0
  unfolding run_set_operation
  run_set_operation-Sanitized op action press post_read w = search serialized-Sanitized

  pub async_lock-Sanitized : (w : World E) → SanitizedResult (async_lock cx w).0
  unfolding async_lock
  async_lock-Sanitized w = search run_operation-Sanitized

  pub async_unlock-Sanitized : (w : World E) → SanitizedResult (async_unlock cx w).0
  unfolding async_unlock
  async_unlock-Sanitized w = search run_operation-Sanitized

  pub async_set_alert_volume-Sanitized :
      (level : ℕ) (w : World E) → SanitizedResult (async_set_alert_volume cx level w).0
  unfolding async_set_alert_volume
  async_set_alert_volume-Sanitized level w = search run_set_operation-Sanitized

  pub async_set_alarm_volume-Sanitized :
      (silent : Bool) (w : World E) → SanitizedResult (async_set_alarm_volume cx silent w).0
  unfolding async_set_alarm_volume
  async_set_alarm_volume-Sanitized silent w = search run_set_operation-Sanitized

  pub async_set_alert_delay-Sanitized :
      (seconds : ℕ) (w : World E) → SanitizedResult (async_set_alert_delay cx seconds w).0
  unfolding async_set_alert_delay
  async_set_alert_delay-Sanitized seconds w = search run_set_operation-Sanitized

  pub async_set_verify_fail_time-Sanitized :
      (seconds : ℕ) (w : World E) → SanitizedResult (async_set_verify_fail_time cx seconds w).0
  unfolding async_set_verify_fail_time
  async_set_verify_fail_time-Sanitized seconds w = search run_set_operation-Sanitized

  pub async_set_auto_lockup_relock_delay-Sanitized :
      (seconds : ℕ) (w : World E)
      → SanitizedResult (async_set_auto_lockup_relock_delay cx seconds w).0
  unfolding async_set_auto_lockup_relock_delay
  async_set_auto_lockup_relock_delay-Sanitized seconds w = search run_set_operation-Sanitized

  pub async_set_auto_lock_on_close_delay-Sanitized :
      (seconds : ℕ) (w : World E)
      → SanitizedResult (async_set_auto_lock_on_close_delay cx seconds w).0
  unfolding async_set_auto_lock_on_close_delay
  async_set_auto_lock_on_close_delay-Sanitized seconds w = search run_set_operation-Sanitized

  pub async_enable_auxiliary_locking_on_close-Sanitized :
      (w : World E) → SanitizedResult (async_enable_auxiliary_locking_on_close cx w).0
  unfolding async_enable_auxiliary_locking_on_close
  async_enable_auxiliary_locking_on_close-Sanitized w = search run_set_operation-Sanitized

  pub async_enable_auxiliary_locking_relock-Sanitized :
      (w : World E) → SanitizedResult (async_enable_auxiliary_locking_relock cx w).0
  unfolding async_enable_auxiliary_locking_relock
  async_enable_auxiliary_locking_relock-Sanitized w = search run_set_operation-Sanitized

  pub async_set_assist_turn-Sanitized :
      (enabled : Bool) (w : World E) → SanitizedResult (async_set_assist_turn cx enabled w).0
  unfolding async_set_assist_turn
  async_set_assist_turn-Sanitized enabled w = search run_set_operation-Sanitized

  pub set_auxiliary_toggle-Sanitized :
      (toggle : Toggle) (enabled : Bool) (w : World E)
      → SanitizedResult (set_auxiliary_toggle cx toggle enabled w).0
  unfolding set_auxiliary_toggle
  set_auxiliary_toggle-Sanitized toggle enabled w = search run_set_operation-Sanitized

  pub async_add_visitor_password-Sanitized :
      (pin : String) (group_id : ℕ) (w : World E)
      → SanitizedResult (async_add_visitor_password cx pin group_id w).0
  unfolding async_add_visitor_password
  async_add_visitor_password-Sanitized pin group_id w = search run_set_operation-Sanitized

  pub async_delete_user-Sanitized :
      (user_id : ℕ) (w : World E) → SanitizedResult (async_delete_user cx user_id w).0
  unfolding async_delete_user
  async_delete_user-Sanitized user_id w = search run_set_operation-Sanitized

  pub async_set_auxiliary_close_to_lock-Sanitized :
      (enabled : Bool) (w : World E)
      → SanitizedResult (async_set_auxiliary_close_to_lock cx enabled w).0
  unfolding async_set_auxiliary_close_to_lock
  async_set_auxiliary_close_to_lock-Sanitized enabled w =
      set_auxiliary_toggle-Sanitized Toggle.close_to_lock enabled w

  pub async_set_auxiliary_resume_lock-Sanitized :
      (enabled : Bool) (w : World E)
      → SanitizedResult (async_set_auxiliary_resume_lock cx enabled w).0
  unfolding async_set_auxiliary_resume_lock
  async_set_auxiliary_resume_lock-Sanitized enabled w =
      set_auxiliary_toggle-Sanitized Toggle.resume_lock enabled w

  pub async_enrol_credential-Sanitized :
      (user_group_id : ℕ) (kind : EnrolKind) (w : World E)
      → SanitizedResult (async_enrol_credential cx user_group_id kind w).0
  unfolding async_enrol_credential
  async_enrol_credential-Sanitized user_group_id kind w = search serialized-Sanitized
