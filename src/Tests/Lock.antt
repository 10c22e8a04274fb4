-- ===== src/Tests/Lock.antt =====
-- A lock that answers everything, and a coordinator that talks to it.
use haos_aqara.Base.{ℕ, suc, Bool, true, false, none, some, []}
use haos_aqara.Errors.{ok, err, aqara, operation}
use haos_aqara.Bluetooth.{BluetoothState}
use haos_aqara.Boundary.{Call, Client, Host, Context}
use haos_aqara.Coordinator.State.{World, initial, build_snapshot}

-- A call that answers and calls nothing back.
abbrev pub answer : {A : Type 0} → A → Call ℕ A
answer a e = (ok a, [], suc e)

abbrev pub failing : {A : Type 0} → Call ℕ A
failing e = (err (aqara operation), [], suc e)

-- The keypad is awake or asleep as `awake` says, and a read of it counts the state up.
abbrev pub client : (awake : Bool) → Client ℕ
client awake = record {
  control_enabled = true;
  offline_enabled = false;
  async_read_user_table = answer none;
  async_add_visitor_password = λ pin group. answer (some "00");
  async_delete_user = λ user. answer none;
  async_read_front_connection = answer (some awake);
  async_enrol_credential = λ group kind timeout. answer none;
  async_lock = answer (some true);
  async_unlock = answer none;
  async_read_state = λ seconds. answer none;
  async_listen_realtime = λ seconds. answer tt;
  async_read_battery = answer (some 80);
  async_read_lock_status = answer (some true);
  async_read_door_type = answer (some "eu");
  async_read_assist_turn = answer none;
  async_read_pull_spring = answer none;
  async_read_auxiliary_locking = answer none;
  async_read_settings = answer none;
  async_read_system_volume = answer none;
  async_read_language = answer none;
  async_read_alarm_volume = answer none;
  async_read_alert_volume = answer (some "high");
  async_read_auto_lockup_delay = answer none;
  async_read_auto_lock_time = answer none;
  async_read_verify_fail_time = answer none;
  async_read_alert_delay = answer none;
  async_set_assist_turn = λ enabled. answer tt;
  async_set_auxiliary_locking = λ touch close resume any. answer tt;
  async_set_alert_volume = λ level. answer tt;
  async_set_alarm_volume = λ silent. answer tt;
  async_set_alert_delay = λ seconds. answer tt;
  async_set_verify_fail_time = λ seconds. answer tt;
  async_set_auto_lockup_relock_delay = λ seconds. answer tt;
  async_set_auto_lock_on_close_delay = λ seconds. answer tt;
  async_enable_auxiliary_locking_on_close = answer tt;
  async_enable_auxiliary_locking_relock = answer tt;
  async_change_language = λ language. answer tt;
}

-- Home Assistant: nothing of it counts.
abbrev pub host : Host ℕ
host = record {
  sleep = λ seconds e. (ok tt, [], e);
  acquire = λ e. (ok tt, [], e);
  turn_on_switch = λ switch e. (ok tt, [], e);
}

abbrev pub context : (awake : Bool) → Context ℕ
context awake = record {
  client = client awake;
  host = host;
  entry = record {
    entry_id = "entry";
    poll_hours = none;
    keypad_wake_switch = some "switch.keypad";
  };
}

abbrev pub reachable : BluetoothState
reachable = record { reachable = true; last_seen = some 1; rssi = none }

-- A fresh coordinator, with the lock in reach.
abbrev pub world : World ℕ
world = record {
  self = initial;
  bluetooth = reachable;
  snapshot = build_snapshot true reachable initial;
  effects = [];
  env = 0;
}
