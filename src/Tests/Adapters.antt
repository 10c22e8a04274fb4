-- ===== src/Tests/Adapters.antt =====
-- The theorems on the adapter, at a library that connects and answers nothing, or not even connects.
use haos_aqara.Base.{ℕ, suc, ◌+◌, ◌≡◌, refl, Bool, true, false, none, some, [], ◌∷◌, is_some, codes}
use haos_aqara.Errors.{Raised, ok, err, aqara, bluetooth_unavailable, library, bleak}
use haos_aqara.Boundary.{Call}
use haos_aqara.Errors.Chain.{
  is_auth_failure, is_invalid_auth_error, is_login_failure, class_of, is_connect_failure,
}
use haos_aqara.Client.Library.{Library, LockOperationWrite}
use haos_aqara.Client.Session.{Adapter, Session}
use haos_aqara.Client.Session.Ends.{uses}
use haos_aqara.Client.Reads.{read_retry}
use haos_aqara.Client.Reads.Normal.{Reads}
use haos_aqara.Client.Reads.Bounded.{SleepIsPlain, read_retry-Reads}
use haos_aqara.Client.Writes.{send_write}
use haos_aqara.Client.Writes.Acknowledged.{Confirmed, send_write-Confirmed, send_write-uses}
use haos_aqara.Client.Operate.{operate_session}
use haos_aqara.Client.Operate.Once.{Guarded, operate_session-Guarded, operate_session-unsent}
use haos_aqara.Client.Offline.{async_enable_offline}
use haos_aqara.Client.Offline.Keeps.{Enables, async_enable_offline-Enables}
use haos_aqara.Tests.Lock.{answer}

-- A connector's error.
abbrev refusal : Raised
refusal =
    library (record { class = bleak; name = "BleakError"; cause = none; context = none } ∷ []) 0

abbrev connection : (connects : Bool) → Call ℕ ℕ
connection true e = answer 7 e
connection false e = (err refusal, [], suc e)

abbrev write : LockOperationWrite
write = record { write_prefix = 196; payload = 1 ∷ [] }

-- Devices, GATT clients, clients and accounts are numbers too.
abbrev ble : (connects : Bool) → Library ℕ ℕ ℕ ℕ ℕ
ble connects = record {
  async_ble_device_from_address = λ e. some 1;
  establish_connection = λ device callback. connection connects;
  from_gatt = λ auth gatt device region ltmk e. (ok gatt, suc e);
  disconnect = λ timeout gatt. answer tt;
  sleep = λ seconds e. (ok tt, [], e);
  fetch_ltmk = λ auth device. answer (0 ∷ 1 ∷ []);
  operate = λ c op seconds. answer (some true);
  listen = λ c seconds. answer tt;
  change_language = λ c language. answer tt;
  enrol_credential = λ c group kind timeout. answer none;
  read_user_table = λ c. answer none;
  add_visitor_password = λ c pin group. answer none;
  delete_user = λ c user. answer none;
  read_front_connection = λ c. answer none;
  battery_percent = λ c. answer none;
  lock_status_locked = λ c. answer none;
  unlock_alarm_no_close_delay = λ c. answer none;
  read_door_type = λ c. answer none;
  read_assist_turn = λ c. answer none;
  read_pull_spring = λ c. answer none;
  read_auxiliary_locking = λ c. answer none;
  read_settings = λ c. answer none;
  read_system_volume = λ c. answer none;
  read_language = λ c. answer none;
  read_alarm_volume = λ c. answer none;
  read_alert_volume = λ c. answer none;
  read_auto_lockup_delay = λ c. answer none;
  read_auto_lock_time = λ c. answer none;
  read_verify_fail_time = λ c. answer none;
  set_alert_delay = λ c seconds. answer none;
  read_burst = λ c frames. answer (("c4:01", some "00") ∷ []);
  build_set_assist_turn = λ b. write;
  build_set_auxiliary_locking = λ a b c d. write;
  build_set_alert_volume = λ n. write;
  build_set_alarm_volume = λ b. write;
  build_set_verify_fail_time = λ n. write;
  build_set_auto_lockup_delay_time = λ n. write;
  build_set_auto_lock_on_close_delay_time = λ n. write;
  build_set_auxiliary_locking_on_close_enabled = write;
  build_set_auxiliary_locking_relock_enabled = write;
}

abbrev account : Adapter ℕ
account = record { auth = some 5; device_id = codes "lumi1.0000"; region = codes "EU"; ltmk = none }

abbrev session : Session ℕ ℕ
session = record { bleak_client = none; started = false; steps = []; callbacks = []; env = 0 }

plain : SleepIsPlain (ble true)
plain n e x p = cc p

read_retry-Reads_example :
    Reads 3 2 session (read_retry (ble true) account is_some (ble true).read_door_type session)
read_retry-Reads_example =
    read_retry-Reads (ble true) account plain is_some (ble true).read_door_type session

send_write-Confirmed_example : Confirmed session (send_write (ble true) account write session)
send_write-Confirmed_example = send_write-Confirmed (ble true) account write session

acknowledged : (send_write (ble true) account write session).0 ≡ ok tt
unfolding send_write
acknowledged = refl

send_write-uses_example :
    uses (send_write (ble true) account write session).1.steps ≡ uses session.steps + 1
send_write-uses_example = send_write-uses (ble true) account write session acknowledged

operate_session-Guarded_example :
    Guarded session
      (operate_session (ble true) account (λ c. (ble true).change_language c "es") session)
operate_session-Guarded_example =
    operate_session-Guarded (ble true) account (λ c. (ble true).change_language c "es") session

unconnected :
    (operate_session (ble false) account (λ c. (ble false).change_language c "es") session).0
    ≡ err (aqara bluetooth_unavailable)
unfolding operate_session is_auth_failure is_invalid_auth_error is_login_failure class_of
    is_connect_failure
unconnected = refl

operate_session-unsent_example :
    uses
      (operate_session
        (ble false)
        account
        (λ c. (ble false).change_language c "es")
        session).1.steps
    ≡ uses session.steps
operate_session-unsent_example =
    operate_session-unsent (ble false) account (λ c. (ble false).change_language c "es") session
      unconnected

async_enable_offline-Enables_example :
    Enables (ble true) account 0 (async_enable_offline (ble true) account 0)
async_enable_offline-Enables_example = async_enable_offline-Enables (ble true) account 0
