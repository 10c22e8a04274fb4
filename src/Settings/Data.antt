-- ===== src/Settings/Data.antt =====
-- `LockSettings` of custom_components/aqara_u200/client.py and the read names of coordinator.py.
use haos_aqara.Base.{ℕ, Bool, Option, none, String, List}

-- The keys of the auxiliary-locking mask, `_AUXILIARY_TOGGLES`.
pub data Toggle : Type 0 where
  touch_to_lock close_to_lock resume_lock any_unlock_lock : Toggle

-- A `dict[str, bool]` over those keys; `none` is a key that is not there.
pub record Mask : Type 0 where
  pub touch_to_lock : Option Bool
  pub close_to_lock : Option Bool
  pub resume_lock : Option Bool
  pub any_unlock_lock : Option Bool

pub record LockSettings : Type 0 where
  pub door_type : Option String
  pub assist_turn : Option Bool
  pub pull_spring_enabled : Option Bool
  pub pull_spring_retraction_s : Option ℕ
  pub auxiliary_locking : Option Mask
  pub system_volume : Option ℕ
  pub language : Option String
  pub alert_volume : Option String
  pub alarm_volume : Option String
  pub verify_fail_time : Option ℕ
  pub auto_lockup_relock_delay : Option ℕ
  pub auto_lock_on_close_delay : Option ℕ
  pub alert_delay : Option ℕ

-- `LockSettings()`
abbrev pub no_settings : LockSettings
no_settings = record {
  door_type = none;
  assist_turn = none;
  pull_spring_enabled = none;
  pull_spring_retraction_s = none;
  auxiliary_locking = none;
  system_volume = none;
  language = none;
  alert_volume = none;
  alarm_volume = none;
  verify_fail_time = none;
  auto_lockup_relock_delay = none;
  auto_lock_on_close_delay = none;
  alert_delay = none;
}

-- The names under which one value is read. `unrecognised` is any other text, for which the source
-- falls through to its last branch.
pub data ReadName : Type 0 where
  state battery door_type assist_turn pull_spring auxiliary_locking : ReadName
  auto_lockup_relock_delay auto_lock_on_close_delay verify_fail_time alert_delay : ReadName
  system_volume language alert_volume alarm_volume credentials unrecognised : ReadName

-- `UserCredential` of the library, as far as the code reads it.
pub record UserCredential : Type 0 where
  pub type_name : String

-- The type of the value that is read under a name, when it is not `None`.
abbrev pub Value : ReadName → Type 0
Value state = Bool
Value battery = ℕ
Value door_type = String
Value assist_turn = Bool
Value pull_spring = Bool × ℕ
Value auxiliary_locking = Mask
Value auto_lockup_relock_delay = ℕ
Value auto_lock_on_close_delay = ℕ
Value verify_fail_time = ℕ
Value alert_delay = ℕ
Value system_volume = ℕ
Value language = String
Value alert_volume = String
Value alarm_volume = String
Value credentials = List UserCredential
Value unrecognised = Bool × ℕ
