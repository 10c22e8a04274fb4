-- ===== src/Entities/Number.antt =====
-- custom_components/aqara_u200/number.py; a value is the whole number of seconds that `int(value)` is.
use haos_aqara.Base.{ℕ, Option}
use haos_aqara.Exec.{Exec}
use haos_aqara.Boundary.{Context}
use haos_aqara.Coordinator.State.{World, RuntimeSnapshot}
use haos_aqara.Coordinator.Requests.{
  async_set_alert_delay, async_set_verify_fail_time, async_set_auto_lockup_relock_delay,
  async_set_auto_lock_on_close_delay,
}
use haos_aqara.Entities.Surface.{surfaced}

-- The entities that `async_setup_entry` adds, by their keys.
pub data Timer : Type 0 where
  alert_delay verify_fail_time auto_lockup_relock_delay auto_lock_on_close_delay : Timer

-- `native_min_value` is 0 for all of them.
unfoldable pub native_max_value : Timer → ℕ
native_max_value alert_delay = 255
native_max_value verify_fail_time = 1800
native_max_value auto_lockup_relock_delay = 65535
native_max_value auto_lock_on_close_delay = 65535

-- `value_fn`, and with it `native_value`
unfoldable pub native_value : Timer → RuntimeSnapshot → Option ℕ
native_value alert_delay snapshot = snapshot.alert_delay
native_value verify_fail_time snapshot = snapshot.verify_fail_time
native_value auto_lockup_relock_delay snapshot = snapshot.auto_lockup_relock_delay
native_value auto_lock_on_close_delay snapshot = snapshot.auto_lock_on_close_delay

module _ {E : Type 0} (cx : Context E) where
  unfoldable pub setter : Timer → ℕ → Exec (World E) Unit
  setter alert_delay seconds = async_set_alert_delay cx seconds
  setter verify_fail_time seconds = async_set_verify_fail_time cx seconds
  setter auto_lockup_relock_delay seconds = async_set_auto_lockup_relock_delay cx seconds
  setter auto_lock_on_close_delay seconds = async_set_auto_lock_on_close_delay cx seconds

  unfoldable pub async_set_native_value : Timer → ℕ → Exec (World E) Unit
  unfolding setter surfaced
  async_set_native_value timer value = surfaced (setter timer value)
