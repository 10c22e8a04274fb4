-- ===== src/Config/Options/Resubmitted.antt =====
-- The options form of custom_components/aqara_u200/config_flow.py, sent as it is shown.
use haos_aqara.Base.{none, some, if◌then◌else◌}
use haos_aqara.Config.Data.{ConfigData, EntryOptions}
use haos_aqara.Config.Options.{Shown, shown, OptionsResult, create_options}

-- What Home Assistant sends of a form that the user leaves as it is shown: a field with a default has
-- its default, an optional one its suggested value.
unfoldable pub unchanged : Shown → EntryOptions
unchanged s = record {
  realtime_state = some s.realtime;
  poll_hours = some s.poll_hours;
  offline_mode = if s.has_offline then some s.offline else none;
  keypad_wake_switch = s.wake_switch;
}

-- What the entry shows after a step.
unfoldable pub shown_after : ConfigData → OptionsResult → Shown → Shown
shown_after config (create_options options) s = shown config options
shown_after config _ s = s
