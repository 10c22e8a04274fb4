-- ===== src/Entities/Select.antt =====
-- custom_components/aqara_u200/select.py
use haos_aqara.Base.{
  ℕ, Bool, true, false, Option, none, some, String, List, [], ◌∷◌, ◌==◌, string_eq, if◌then◌else◌,
}
use haos_aqara.Errors.Builtin.{key_error}
use haos_aqara.Exec.{Exec, raise, modify}
use haos_aqara.Boundary.{Context}
use haos_aqara.Coordinator.State.{World, RuntimeSnapshot, Task, task_created}
use haos_aqara.Coordinator.Callbacks.{emit}
use haos_aqara.Coordinator.Requests.{async_set_alert_volume, async_set_alarm_volume}
use haos_aqara.Entities.Surface.{surfaced}

-- `_ALERT_VOLUME_LEVELS`
abbrev pub alert_volume_levels : List (String × ℕ)
alert_volume_levels = ("high", 1) ∷ ("medium", 2) ∷ ("low", 3) ∷ ("silent", 4) ∷ []

-- `_ALARM_VOLUME_READ` and `_ALARM_VOLUME_IS_SILENT`
abbrev pub alarm_volume_read : List (String × String)
alarm_volume_read = ("00", "silent") ∷ ("10", "normal") ∷ []

abbrev pub alarm_volume_is_silent : List (String × Bool)
alarm_volume_is_silent = ("normal", false) ∷ ("silent", true) ∷ []

-- `LANGUAGE_OPTIONS`
abbrev pub language_options : List String
language_options = "es" ∷ "en" ∷ "fr" ∷ "de" ∷ "it" ∷ "pt" ∷ []

-- `dictionary.get(key)`
unfoldable pub get : {V : Type 0} → List (String × V) → String → Option V
get [] key = none
get ((k, v) ∷ dictionary) key = let rest = get dictionary key in if k == key then some v else rest

unfoldable pub keys : {V : Type 0} → List (String × V) → List String
keys [] = []
keys ((k, v) ∷ dictionary) = k ∷ keys dictionary

-- `value in options`
unfoldable pub is_in : String → List String → Bool
is_in value [] = false
is_in value (option ∷ options) =
    let rest = is_in value options in if option == value then true else rest

-- `value if value in options else None`
unfoldable pub known : List String → Option String → Option String
unfolding is_in
known options none = none
known options (some value) = if is_in value options then some value else none

-- The entities that `async_setup_entry` adds.
pub data Select : Type 0 where
  alert_volume alarm_volume language : Select

-- `_attr_options`
unfoldable pub options : Select → List String
unfolding keys
options alert_volume = keys alert_volume_levels
options alarm_volume = keys alarm_volume_is_silent
options language = language_options

-- `AqaraU200AlertVolumeSelect.current_option`
unfoldable pub alert_option : Option String → Option String
unfolding known options
alert_option value = known (options alert_volume) value

-- `AqaraU200AlarmVolumeSelect.current_option`
unfoldable pub alarm_option : Option String → Option String
unfolding get
alarm_option none = none
alarm_option (some raw) = get alarm_volume_read raw

-- `AqaraU200LanguageSelect.current_option`
unfoldable pub language_option : Option String → Option String
unfolding known options
language_option value = known (options language) value

unfoldable pub current_option : Select → RuntimeSnapshot → Option String
unfolding alert_option alarm_option language_option
current_option alert_volume snapshot = alert_option snapshot.alert_volume
current_option alarm_volume snapshot = alarm_option snapshot.alarm_volume
current_option language snapshot = language_option snapshot.language

-- `dictionary[key]`, handed to a request
unfoldable pub with_value :
    {E V : Type 0} → Option V → (V → Exec (World E) Unit) → Exec (World E) Unit
with_value none request = raise key_error
with_value (some value) request = request value

module _ {E : Type 0} (cx : Context E) where
  unfoldable pub select_alert_volume : String → Exec (World E) Unit
  unfolding surfaced get with_value
  select_alert_volume option =
      surfaced (with_value (get alert_volume_levels option) (async_set_alert_volume cx))

  unfoldable pub select_alarm_volume : String → Exec (World E) Unit
  unfolding surfaced get with_value
  select_alarm_volume option =
      surfaced (with_value (get alarm_volume_is_silent option) (async_set_alarm_volume cx))

  -- The language is changed by a task in the background.
  unfoldable pub select_language : String → Exec (World E) Unit
  select_language option = modify (emit (task_created Task.change_language))

  unfoldable pub async_select_option : Select → String → Exec (World E) Unit
  unfolding select_alert_volume select_alarm_volume select_language
  async_select_option alert_volume option = select_alert_volume option
  async_select_option alarm_volume option = select_alarm_volume option
  async_select_option language option = select_language option
