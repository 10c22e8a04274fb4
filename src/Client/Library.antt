-- ===== src/Client/Library.antt =====
-- What custom_components/aqara_u200/client.py calls: the library aqara-ble, the connector of bleak and
-- Home Assistant's Bluetooth. All of it is a parameter.
use haos_aqara.Base.{ℕ, Bool, Option, String, List, Text}
use haos_aqara.Errors.{Result}
use haos_aqara.Boundary.{Call, EnrolKind, EnrolReport}
use haos_aqara.Settings.Data.{LockSettings, Mask, UserCredential}

-- `LockOperation`, as far as the adapter uses it.
pub data LockOperation : Type 0 where
  lock unlock keepalive : LockOperation

-- `LockOperationWrite`. The text `frame_spec` is made of these two fields.
pub record LockOperationWrite : Type 0 where
  pub write_prefix : ℕ
  pub payload : List ℕ

-- `D` are the devices of Home Assistant, `G` the GATT clients, `P` the clients of the library, `A` the
-- cloud credential managers, and `E` is the state of everything behind the adapter. Callbacks that a
-- call is given (events of the lock, reports of an enrolment) are what the call returns beside its result.
pub record Library (D G P A E : Type 0) : Type 0 where
  pub async_ble_device_from_address : E → Option D
  pub establish_connection : D → (ble_device_callback : E → D) → Call E G
  pub from_gatt :
      Option A → G → (device_id region : Text) → (ltmk : Option (List ℕ)) → E → Result P × E
  pub disconnect : (timeout : ℕ) → G → Call E (Unit {0})
  pub sleep : ℕ → Call E (Unit {0})
  pub fetch_ltmk : A → (device_id : Text) → Call E (List ℕ)
  pub operate : P → LockOperation → (listen_after : ℕ) → Call E (Option Bool)
  pub listen : P → (seconds : ℕ) → Call E (Unit {0})
  pub change_language : P → String → Call E (Unit {0})
  pub enrol_credential : P → ℕ → EnrolKind → (timeout : ℕ) → Call E (Option EnrolReport)
  pub read_user_table : P → Call E (Option (List UserCredential))
  pub add_visitor_password : P → String → ℕ → Call E (Option String)
  pub delete_user : P → ℕ → Call E (Option String)
  pub read_front_connection : P → Call E (Option Bool)
  pub battery_percent : P → Call E (Option ℕ)
  pub lock_status_locked : P → Call E (Option Bool)
  pub unlock_alarm_no_close_delay : P → Call E (Option ℕ)
  pub read_door_type : P → Call E (Option String)
  pub read_assist_turn : P → Call E (Option Bool)
  pub read_pull_spring : P → Call E (Option (Bool × ℕ))
  pub read_auxiliary_locking : P → Call E (Option Mask)
  pub read_settings : P → Call E (Option LockSettings)
  pub read_system_volume : P → Call E (Option ℕ)
  pub read_language : P → Call E (Option String)
  pub read_alarm_volume : P → Call E (Option String)
  pub read_alert_volume : P → Call E (Option String)
  pub read_auto_lockup_delay : P → Call E (Option ℕ)
  pub read_auto_lock_time : P → Call E (Option ℕ)
  pub read_verify_fail_time : P → Call E (Option ℕ)
  pub set_alert_delay : P → ℕ → Call E (Option String)
  pub read_burst : P → List LockOperationWrite → Call E (List (String × Option String))
  pub build_set_assist_turn : (enabled : Bool) → LockOperationWrite
  pub build_set_auxiliary_locking : (touch close resume any : Bool) → LockOperationWrite
  pub build_set_alert_volume : ℕ → LockOperationWrite
  pub build_set_alarm_volume : (silent : Bool) → LockOperationWrite
  pub build_set_verify_fail_time : ℕ → LockOperationWrite
  pub build_set_auto_lockup_delay_time : ℕ → LockOperationWrite
  pub build_set_auto_lock_on_close_delay_time : ℕ → LockOperationWrite
  pub build_set_auxiliary_locking_on_close_enabled : LockOperationWrite
  pub build_set_auxiliary_locking_relock_enabled : LockOperationWrite
