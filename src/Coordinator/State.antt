-- ===== src/Coordinator/State.antt =====
-- The state of `AqaraU200Coordinator`, the snapshots that it publishes and its callbacks.
use haos_aqara.Base.{
  ℕ, Bool, true, false, Option, none, String, Text, List, option_eq, bool_eq, nat_eq, string_eq,
}
use haos_aqara.Base.Int.{ℤ}
use haos_aqara.Bluetooth.{BluetoothState}
use haos_aqara.Boundary.{LockEvent, EnrolReport, EnrolKind}
use haos_aqara.Settings.Data.{LockSettings, Mask, Toggle, no_settings}

-- The texts that `_last_operation` takes.
pub data Operation : Type 0 where
  lock unlock set_alert_volume set_alarm_volume set_alert_delay set_verify_fail_time : Operation
  set_auto_lockup_relock_delay set_auto_lock_on_close_delay : Operation
  enable_auxiliary_locking_on_close enable_auxiliary_locking_relock set_assist_turn : Operation
  set_auxiliary : Toggle → Operation
  change_language : String → Operation
  add_visitor_password : ℕ → Operation
  delete_user : ℕ → Operation
  enrol_credential : EnrolKind → Operation

-- `operation == "lock"`
unfoldable pub is_lock : Operation → Bool
is_lock lock = true
is_lock _ = false

pub record RuntimeSnapshot : Type 0 where
  pub reachable : Bool
  pub last_seen : Option ℕ
  pub rssi : Option ℤ
  pub control_enabled : Bool
  pub operation_in_progress : Bool
  pub last_operation : Option Operation
  pub last_error_type : Option String
  pub is_locked : Option Bool
  pub battery_percent : Option ℕ
  pub door_type : Option String
  pub assist_turn : Option Bool
  pub pull_spring_enabled : Option Bool
  pub pull_spring_retraction_s : Option ℕ
  pub auxiliary_locking : Option Mask
  pub system_volume : Option ℕ
  pub language : Option String
  pub alert_volume : Option String
  pub alarm_volume : Option String
  pub verify_fail_time : Option ℕ
  pub auto_lockup_relock_delay : Option ℕ
  pub auto_lock_on_close_delay : Option ℕ
  pub alert_delay : Option ℕ
  pub credential_count : Option ℕ
  pub credentials_by_type : Option (List (String × ℕ))

-- A task of the held listen, which may have ended.
pub data Handle : Type 0 where
  pending done : Handle

-- The fields of the class, but for the Bluetooth manager, the client and the entry. A task is
-- `true` where the field is not `None`; a stop event is `true` where it is set.
pub record Coordinator : Type 0 where
  pub operation_lock : Bool
  pub operation_in_progress : Bool
  pub last_operation : Option Operation
  pub last_error_type : Option String
  pub is_locked : Option Bool
  pub battery_percent : Option ℕ
  pub settings : LockSettings
  pub credential_count : Option ℕ
  pub credentials_by_type : Option (List (String × ℕ))
  pub realtime_task : Bool
  pub listen_handle : Option Handle
  pub realtime_stop : Bool
  pub battery_task : Bool
  pub battery_stop : Bool

unfoldable pub build_snapshot :
    (control_enabled : Bool) → BluetoothState → Coordinator → RuntimeSnapshot
build_snapshot control_enabled bluetooth_state self = record {
  reachable = bluetooth_state.reachable;
  last_seen = bluetooth_state.last_seen;
  rssi = bluetooth_state.rssi;
  control_enabled = control_enabled;
  operation_in_progress = self.operation_in_progress;
  last_operation = self.last_operation;
  last_error_type = self.last_error_type;
  is_locked = self.is_locked;
  battery_percent = self.battery_percent;
  door_type = self.settings.door_type;
  assist_turn = self.settings.assist_turn;
  pull_spring_enabled = self.settings.pull_spring_enabled;
  pull_spring_retraction_s = self.settings.pull_spring_retraction_s;
  auxiliary_locking = self.settings.auxiliary_locking;
  system_volume = self.settings.system_volume;
  language = self.settings.language;
  alert_volume = self.settings.alert_volume;
  alarm_volume = self.settings.alarm_volume;
  verify_fail_time = self.settings.verify_fail_time;
  auto_lockup_relock_delay = self.settings.auto_lockup_relock_delay;
  auto_lock_on_close_delay = self.settings.auto_lock_on_close_delay;
  alert_delay = self.settings.alert_delay;
  credential_count = self.credential_count;
  credentials_by_type = self.credentials_by_type;
}

-- `__init__`, the published `data` apart.
abbrev pub initial : Coordinator
initial = record {
  operation_lock = false;
  operation_in_progress = false;
  last_operation = none;
  last_error_type = none;
  is_locked = none;
  battery_percent = none;
  settings = no_settings;
  credential_count = none;
  credentials_by_type = none;
  realtime_task = false;
  listen_handle = none;
  realtime_stop = false;
  battery_task = false;
  battery_stop = false;
}

-- Why a keypad press is asked for.
pub data PressReason : Type 0 where
  new_language : String → PressReason
  add_password remove_credential enrol : PressReason

pub data Task : Type 0 where
  realtime battery initial_sync refresh_button change_language : Task

-- What the coordinator does to Home Assistant, in order: events on the bus, notifications, the
-- start of a reauthentication, background tasks, and the cancelling of tasks and of the listen.
pub data Effect : Type 0 where
  published : RuntimeSnapshot → Effect
  fired_lock_event : LockEvent → Effect
  fired_keypad_press_required : PressReason → (window_seconds : ℕ) → Effect
  fired_enrol_progress : EnrolReport → Effect
  notification_created notification_dismissed : (notification_id : Text) → Effect
  reauth_started listen_cancelled : Effect
  task_created task_cancelled : Task → Effect

-- The coordinator at one moment: its fields, the manager's Bluetooth state, the snapshot that the
-- entities see (`self.data`), what it has done so far, and the world behind the client and the host.
pub record World (E : Type 0) : Type 0 where
  pub self : Coordinator
  pub bluetooth : BluetoothState
  pub snapshot : RuntimeSnapshot
  pub effects : List Effect
  pub env : E
