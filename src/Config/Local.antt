-- ===== src/Config/Local.antt =====
-- The local step and the reauthentication of custom_components/aqara_u200/config_flow.py.
use haos_aqara.Base.{ℕ, true, Option, none, some, List, [], ◌∷◌, Text}
use haos_aqara.Exec.{Exec, pure, when, ◌>>=◌, ◌>>◌}
use haos_aqara.Ltmk.{parse_ltmk, hex}
use haos_aqara.Config.Data.{local, ConfigData, UserInput, entry_data, or_stored}
use haos_aqara.Config.Cloud.{Cloud, get_or_default}
use haos_aqara.Config.Schema.{auth_schema, local_schema}
use haos_aqara.Config.Flow.{
  reauth_confirm, setup, ErrorField, base, ltmk_field, FlowError, invalid_ltmk, FlowResult,
  show_form, create_entry, update_reload_and_abort, Flow, FlowHost, manual, claim,
}
use haos_aqara.Config.Steps.{lookup, address_of, title_of, get_toggle, async_auth_error}

unfoldable pub local_form : Flow → List (ErrorField × FlowError) → FlowResult
local_form self errors =
    show_form (setup local) (local_schema (manual self)) errors (some self.discovered_name) none

-- `entry_data` and the options of a local entry
unfoldable pub local_entry :
    Flow → UserInput → (address device_id : Text) → (key : List ℕ) → FlowResult
unfolding title_of get_toggle
local_entry self user_input address device_id key =
    create_entry (title_of self address)
      (record {
        address = some address;
        region = none;
        account = none;
        password = none;
        device_id = some device_id;
        ltmk = some (hex key);
        setup_mode = some local;
      })
      (record {
        realtime_state = some (get_toggle user_input.realtime_state);
        poll_hours = none;
        offline_mode = some true;
        keypad_wake_switch = none;
      })

module _ {E : Type 0} (ha : FlowHost E) where
  -- What follows `parse_ltmk`, whose `ValueError` is `none`.
  unfoldable pub finish_local :
      Flow → UserInput → ConfigData → Text → Option (List ℕ) → Exec E FlowResult
  unfolding local_form local_entry lookup claim
  finish_local self user_input config address none =
      pure (local_form self ((ltmk_field, invalid_ltmk) ∷ []))
  finish_local self user_input config address (some key) = do
    when (manual self) (claim ha address)
    device_id ← lookup config.device_id
    pure (local_entry self user_input address device_id key)

  unfoldable pub async_step_local : Flow → Option UserInput → Exec E FlowResult
  unfolding local_form address_of lookup finish_local parse_ltmk
  async_step_local self none = pure (local_form self [])
  async_step_local self (some user_input) = do
    address ← address_of self (entry_data user_input)
    ltmk ← lookup (entry_data user_input).ltmk
    finish_local self user_input (entry_data user_input) address (parse_ltmk ltmk)

-- `{**entry.data, **updates}`
unfoldable pub merge : ConfigData → ConfigData → ConfigData
unfolding or_stored
merge stored updates = record {
  address = or_stored updates.address stored.address;
  region = or_stored updates.region stored.region;
  account = or_stored updates.account stored.account;
  password = or_stored updates.password stored.password;
  device_id = or_stored updates.device_id stored.device_id;
  ltmk = or_stored updates.ltmk stored.ltmk;
  setup_mode = or_stored updates.setup_mode stored.setup_mode;
}

unfoldable pub reauth_form : ConfigData → List (ErrorField × FlowError) → FlowResult
unfolding get_or_default
reauth_form entry errors =
    show_form reauth_confirm auth_schema errors none (some (get_or_default [] entry.account))

unfoldable pub finish_reauth : ConfigData → ConfigData → Option FlowError → FlowResult
unfolding reauth_form
finish_reauth entry updates none = update_reload_and_abort updates
finish_reauth entry updates (some error) = reauth_form entry ((base, error) ∷ [])

module _ {A E : Type 0} (lib : Cloud A E) where
  -- `async_step_reauth_confirm`, and without an input `async_step_reauth`; `entry` is the data of the
  -- entry.
  unfoldable pub async_step_reauth_confirm : ConfigData → Option UserInput → Exec E FlowResult
  unfolding reauth_form merge async_auth_error finish_reauth
  async_step_reauth_confirm entry none = pure (reauth_form entry [])
  async_step_reauth_confirm entry (some user_input) = do
    error ← async_auth_error lib (merge entry (entry_data user_input))
    pure (finish_reauth entry (entry_data user_input) error)
