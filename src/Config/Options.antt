-- ===== src/Config/Options.antt =====
-- `AqaraU200OptionsFlow` of custom_components/aqara_u200/config_flow.py.
pub mod Resubmitted
use haos_aqara.Base.{
  ℕ, Bool, true, false, not, Option, none, some, is_none, String, List, [], ◌∷◌, ◌++◌,
  if◌then◌else◌,
}
use haos_aqara.Base.Int.{pos}
use haos_aqara.Const.{default_poll_hours, max_poll_hours}
use haos_aqara.Boundary.{PollHours, hours}
use haos_aqara.Config.Data.{ConfigData, EntryOptions}
use haos_aqara.Config.Schema.{
  Schema, Key, realtime_state, poll_hours, offline_mode, keypad_wake_switch, optional, defaulted,
  bool, number, switch_entity,
}

-- The values of the options as the form shows them: the toggles and the number that it starts with,
-- the suggested switch, and whether the form has the field for the offline mode.
pub record Shown : Type 0 where
  pub realtime : Bool
  pub poll_hours : PollHours
  pub offline : Bool
  pub wake_switch : Option String
  pub has_offline : Bool

unfoldable pub get_or_else : {A : Type 0} → A → Option A → A
get_or_else default none = default
get_or_else default (some value) = value

-- `wake_switch or None`, where the default is the empty text
unfoldable pub suggested_switch : Option String → Option String
suggested_switch (some String.[]) = none
suggested_switch switch = switch

-- What `async_step_init` reads of the entry.
unfoldable pub shown : ConfigData → EntryOptions → Shown
unfolding get_or_else suggested_switch
shown config options = record {
  realtime = get_or_else false options.realtime_state;
  poll_hours = get_or_else (hours (pos default_poll_hours)) options.poll_hours;
  offline = get_or_else false options.offline_mode;
  wake_switch = suggested_switch options.keypad_wake_switch;
  has_offline = not (is_none config.account);
}

-- `schema`
unfoldable pub options_schema : Shown → Schema
options_schema s =
    ((defaulted realtime_state, bool) ∷ (defaulted poll_hours, number 0 max_poll_hours 1) ∷ [])
    ++ ((if s.has_offline then (defaulted offline_mode, bool) ∷ [] else [])
        ++ ((optional keypad_wake_switch, switch_entity) ∷ []))

-- The two ends of the step: the form, or the options that the entry has from now on.
pub data OptionsResult : Type 0 where
  show_init : Schema → Shown → OptionsResult
  create_options : EntryOptions → OptionsResult

unfoldable pub async_step_init : ConfigData → EntryOptions → Option EntryOptions → OptionsResult
unfolding shown options_schema
async_step_init config options (some user_input) = create_options user_input
async_step_init config options none =
    show_init (options_schema (shown config options)) (shown config options)
