-- ===== src/Client/Reads.antt =====
-- The reads of `AqaraU200BleClientAdapter` (custom_components/aqara_u200/client.py), with their retries.
pub mod Bounded
pub mod Normal
use haos_aqara.Base.{
  ℕ, zero, suc, ◌<◌, Bool, true, false, not, ◌||◌, Option, none, some, String, List, [], ◌∷◌,
  is_some, ltb, if◌then◌else◌,
}
use haos_aqara.Const.{ble_read_attempts, ble_read_gap_seconds}
use haos_aqara.Errors.{Raised, aqara, operation}
use haos_aqara.Exec.{Exec, pure, raise, gets, modify, when, ◌>>=◌, ◌>>◌}
use haos_aqara.Boundary.{Call}
use haos_aqara.Settings.Data.{LockSettings, Mask, UserCredential}
use haos_aqara.Client.Library.{Library}
use haos_aqara.Client.Session.{
  Adapter, Session, slept, await, step, run_session, read_failed, ignore_all,
}

-- `_has_any_field`
unfoldable pub has_any_field : Option LockSettings → Bool
has_any_field none = false
has_any_field (some settings) =
    is_some settings.system_volume
    || (is_some settings.language
        || (is_some settings.alert_volume || is_some settings.alarm_volume))

-- `bool(value)` of a list or `None`
unfoldable pub is_filled : Option (List UserCredential) → Bool
is_filled (some (credential ∷ credentials)) = true
is_filled _ = false

-- `creds or None`
unfoldable pub filled : Option (List UserCredential) → Option (List UserCredential)
filled (some (credential ∷ credentials)) = some (credential ∷ credentials)
filled _ = none

module _ {D G P A E : Type 0} (lib : Library D G P A E) (self : Adapter A) where
  unfoldable pub read_from :
      {X : Type 0} → Option D → (P → Call E (Option X)) → Exec (Session G E) (Option X)
  unfolding run_session read_failed ignore_all
  read_from none reader = pure none
  read_from (some ble_device) reader = run_session lib self read_failed ignore_all ble_device reader

  -- `_async_one_read`
  unfoldable pub one_read : {X : Type 0} → (P → Call E (Option X)) → Exec (Session G E) (Option X)
  unfolding read_from
  one_read reader = do
    ble_device ← gets (λ s. lib.async_ble_device_from_address s.env)
    read_from ble_device reader

  -- `await asyncio.sleep(BLE_READ_GAP_SECONDS)`
  unfoldable pub pause : Exec (Session G E) (Unit {0})
  unfolding step await
  pause = do modify (step slept); await (lib.sleep ble_read_gap_seconds)

  -- The loop of `_async_read_retry` with the number of attempts that are left.
  unfoldable pub attempts_left :
      {X : Type 0}
      → (Option X → Bool)
      → (P → Call E (Option X))
      → ℕ
      → Option X
      → Exec (Session G E) (Option X)
  unfolding one_read pause
  attempts_left is_useful reader zero value = pure value
  attempts_left is_useful reader (suc left) value =
      let rest = attempts_left is_useful reader left in
      do
        value' ← one_read reader
        if is_useful value' then pure value' else do when (ltb 0 left) pause; rest value'

  -- `_async_read_retry`
  unfoldable pub read_retry :
      {X : Type 0} → (Option X → Bool) → (P → Call E (Option X)) → Exec (Session G E) (Option X)
  unfolding attempts_left
  read_retry is_useful reader = attempts_left is_useful reader ble_read_attempts none

  -- The default of `is_useful`.
  unfoldable pub read_value : {X : Type 0} → (P → Call E (Option X)) → Exec (Session G E) (Option X)
  unfolding read_retry
  read_value reader = read_retry is_some reader

  unfoldable pub async_read_user_table : Exec (Session G E) (Option (List UserCredential))
  unfolding read_retry is_filled filled
  async_read_user_table = do creds ← read_retry is_filled lib.read_user_table; pure (filled creds)

  unfoldable pub async_read_settings : Exec (Session G E) (Option LockSettings)
  unfolding read_retry has_any_field
  async_read_settings = read_retry has_any_field lib.read_settings

  unfoldable pub async_read_front_connection : Exec (Session G E) (Option Bool)
  unfolding one_read
  async_read_front_connection = one_read lib.read_front_connection

  unfoldable pub async_add_visitor_password : String → ℕ → Exec (Session G E) (Option String)
  unfolding one_read
  async_add_visitor_password pin group_id = one_read (λ c. lib.add_visitor_password c pin group_id)

  unfoldable pub async_delete_user : ℕ → Exec (Session G E) (Option String)
  unfolding one_read
  async_delete_user user_id = one_read (λ c. lib.delete_user c user_id)

  unfoldable pub async_read_battery : Exec (Session G E) (Option ℕ)
  unfolding read_value
  async_read_battery = read_value lib.battery_percent

  unfoldable pub async_read_lock_status : Exec (Session G E) (Option Bool)
  unfolding read_value
  async_read_lock_status = read_value lib.lock_status_locked

  unfoldable pub async_read_alert_delay : Exec (Session G E) (Option ℕ)
  unfolding read_value
  async_read_alert_delay = read_value lib.unlock_alarm_no_close_delay
