-- ===== src/Boundary.antt =====
-- What the coordinator awaits: the contract `AqaraU200Client` of custom_components/aqara_u200/
-- client.py, the services of Home Assistant, and what either may call back while it is awaited.
use haos_aqara.Base.{ℕ, Bool, Option, String, List}
use haos_aqara.Base.Int.{ℤ}
use haos_aqara.Errors.{Result}
use haos_aqara.Bluetooth.{Advertisement}
use haos_aqara.Settings.Data.{LockSettings, Mask, UserCredential}

-- `LockEvent` of the library, as far as the code reads it.
pub record LockEvent : Type 0 where
  pub kind : String
  pub locked : Option Bool
  pub battery_percent : Option ℕ
  pub source : Option String
  pub timestamp : Option ℕ
  pub raw_hex : Option String

-- A report of the library's enrolment, attribute by attribute as `getattr` reads it.
pub record EnrolReport : Type 0 where
  pub kind : Option String
  pub status : Option ℕ
  pub press_count : Option ℕ
  pub user_group_id : Option ℕ
  pub credential_id : Option ℕ
  pub credential_type : Option ℕ

-- What may happen to the coordinator while one of its coroutines is suspended.
pub data Callback : Type 0 where
  advertisement : Advertisement → Callback
  lock_event : LockEvent → Callback
  enrol_report : EnrolReport → Callback
  stop_battery : Callback
  stop_realtime : Callback

-- An awaited call: how it ends, what it calls back before that, and the world that it leaves.
abbrev pub Call : Type 0 → Type 0 → Type 0
Call E A = E → Result A × List Callback × E

pub data EnrolKind : Type 0 where
  finger nfc finger_admin nfc_admin : EnrolKind

-- The protocol class `AqaraU200Client`, without `async_enable_offline`, which is called once, before
-- there is a coordinator. `E` is the state of everything behind the contract.
pub record Client (E : Type 0) : Type 0 where
  pub control_enabled : Bool
  pub offline_enabled : Bool
  pub async_read_user_table : Call E (Option (List UserCredential))
  pub async_add_visitor_password : String → ℕ → Call E (Option String)
  pub async_delete_user : ℕ → Call E (Option String)
  pub async_read_front_connection : Call E (Option Bool)
  pub async_enrol_credential : ℕ → EnrolKind → ℕ → Call E (Option EnrolReport)
  pub async_lock : Call E (Option Bool)
  pub async_unlock : Call E (Option Bool)
  pub async_read_state : (listen_after : ℕ) → Call E (Option Bool)
  pub async_listen_realtime : ℕ → Call E (Unit {0})
  pub async_read_battery : Call E (Option ℕ)
  pub async_read_lock_status : Call E (Option Bool)
  pub async_read_door_type : Call E (Option String)
  pub async_read_assist_turn : Call E (Option Bool)
  pub async_read_pull_spring : Call E (Option (Bool × ℕ))
  pub async_read_auxiliary_locking : Call E (Option Mask)
  pub async_read_settings : Call E (Option LockSettings)
  pub async_read_system_volume : Call E (Option ℕ)
  pub async_read_language : Call E (Option String)
  pub async_read_alarm_volume : Call E (Option String)
  pub async_read_alert_volume : Call E (Option String)
  pub async_read_auto_lockup_delay : Call E (Option ℕ)
  pub async_read_auto_lock_time : Call E (Option ℕ)
  pub async_read_verify_fail_time : Call E (Option ℕ)
  pub async_read_alert_delay : Call E (Option ℕ)
  pub async_set_assist_turn : (enabled : Bool) → Call E (Unit {0})
  pub async_set_auxiliary_locking : (touch close resume any : Bool) → Call E (Unit {0})
  pub async_set_alert_volume : ℕ → Call E (Unit {0})
  pub async_set_alarm_volume : (silent : Bool) → Call E (Unit {0})
  pub async_set_alert_delay : ℕ → Call E (Unit {0})
  pub async_set_verify_fail_time : ℕ → Call E (Unit {0})
  pub async_set_auto_lockup_relock_delay : ℕ → Call E (Unit {0})
  pub async_set_auto_lock_on_close_delay : ℕ → Call E (Unit {0})
  pub async_enable_auxiliary_locking_on_close : Call E (Unit {0})
  pub async_enable_auxiliary_locking_relock : Call E (Unit {0})
  pub async_change_language : String → Call E (Unit {0})

-- Home Assistant and asyncio: `asyncio.sleep`, also as the timeout of a wait for an event; the wait
-- for the operation lock; and the service `switch.turn_on`.
pub record Host (E : Type 0) : Type 0 where
  pub sleep : ℕ → Call E (Unit {0})
  pub acquire : Call E (Unit {0})
  pub turn_on_switch : String → Call E (Unit {0})

-- `entry.options.get(CONF_POLL_HOURS)`: a number, or a value that `float` refuses, with its truth value.
pub data PollHours : Type 0 where
  hours : ℤ → PollHours
  unreadable : (truthy : Bool) → PollHours

-- The config entry, as far as the coordinator reads it. An option is `none` where it is not set.
pub record Entry : Type 0 where
  pub entry_id : String
  pub poll_hours : Option PollHours
  pub keypad_wake_switch : Option String

-- What `AqaraU200Coordinator.__init__` is given.
pub record Context (E : Type 0) : Type 0 where
  pub client : Client E
  pub host : Host E
  pub entry : Entry
