-- ===== src/Config/Data.antt =====
-- What custom_components/aqara_u200/config_flow.py reads and writes: the data and the options of a config
-- entry, and what the user has filled in. A field is `none` where the dictionary does not have the key.
use haos_aqara.Base.{Bool, Option, none, some, String, Text, codes}
use mathlib.Core.Option.{map}
use haos_aqara.Boundary.{PollHours}
use haos_aqara.Ltmk.{strip}

-- `SETUP_MODE_CLOUD`, `SETUP_MODE_LOCAL` and `SETUP_MODE_CLOUD_CUTTER`
pub data Mode : Type 0 where
  cloud local cloud_cutter : Mode

pub record ConfigData : Type 0 where
  pub address : Option Text
  pub region : Option Text
  pub account : Option Text
  pub password : Option Text
  pub device_id : Option Text
  pub ltmk : Option Text
  pub setup_mode : Option Mode

pub record EntryOptions : Type 0 where
  pub realtime_state : Option Bool
  pub poll_hours : Option PollHours
  pub offline_mode : Option Bool
  pub keypad_wake_switch : Option String

-- `user_input` of a step of the setup or of the reauthentication: its texts and its toggle.
pub record UserInput : Type 0 where
  pub address : Option Text
  pub region : Option Text
  pub account : Option Text
  pub password : Option Text
  pub device_id : Option Text
  pub ltmk : Option Text
  pub realtime_state : Option Bool

-- `_entry_data`
unfoldable pub entry_data : UserInput → ConfigData
unfolding strip
entry_data user_input = record {
  address = map strip user_input.address;
  region = map strip user_input.region;
  account = map strip user_input.account;
  password = user_input.password;
  device_id = map strip user_input.device_id;
  ltmk = map strip user_input.ltmk;
  setup_mode = none;
}

-- `DEFAULT_REGION`
abbrev pub default_region : Text
default_region = codes "EU"

-- `{**stored, **new}` at one key
unfoldable pub or_stored : {A : Type 0} → Option A → Option A → Option A
or_stored none stored = stored
or_stored (some new) stored = some new
