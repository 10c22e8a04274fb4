-- ===== src/Config/Steps.antt =====
-- The steps of custom_components/aqara_u200/config_flow.py that read what the user has filled in.
use haos_aqara.Base.{
  ℕ, Bool, true, false, not, Option, none, some, List, [], ◌∷◌, ◌++◌, Text, codes, if◌then◌else◌,
}
use haos_aqara.Errors.{Result, ok, err, aqara, cancelled, library}
use haos_aqara.Errors.Builtin.{key_error}
use haos_aqara.Errors.Chain.{is_invalid_auth_error}
use haos_aqara.Exec.{Exec, pure, raise, attempt, when, ◌>>=◌, ◌>>◌}
use haos_aqara.Ltmk.{hex}
use haos_aqara.Config.Data.{or_stored, Mode, cloud_cutter, ConfigData, UserInput, entry_data}
use haos_aqara.Config.Cloud.{
  Cloud, async_validate_cloud_auth, async_resolve_device_id, async_fetch_ltmk,
}
use haos_aqara.Config.Schema.{cloud_schema}
use haos_aqara.Config.Flow.{
  setup, ErrorField, base, FlowError, invalid_auth, cannot_connect, no_device, ltmk_fetch,
  FlowResult, show_form, create_entry, Flow, FlowHost, non_empty, manual, claim,
}

-- `data[key]`
unfoldable pub lookup : {E : Type 0} → Option Text → Exec E Text
lookup none = raise key_error
lookup (some value) = pure value

-- `self._discovered_address or data[CONF_ADDRESS]`
unfoldable pub address_of : {E : Type 0} → Flow → ConfigData → Exec E Text
unfolding non_empty lookup
address_of self config = elim (non_empty self.discovered_address) [
  | some address ↦ pure address
  | none ↦ lookup config.address
]

-- `title`
unfoldable pub title_of : Flow → Text → Text
unfolding manual
title_of self address =
    if not (manual self) then self.discovered_name else codes "Aqara U200 " ++ address

-- `user_input.get(CONF_REALTIME_STATE, DEFAULT_REALTIME_STATE)`
unfoldable pub get_toggle : Option Bool → Bool
get_toggle none = false
get_toggle (some value) = value

-- The `except` clause of `_async_auth_error`.
unfoldable pub auth_error_of : {E : Type 0} → Result (Unit {0}) → Exec E (Option FlowError)
auth_error_of (ok _) = pure none
auth_error_of (err cancelled) = raise cancelled
auth_error_of (err (aqara e)) = pure (some cannot_connect)
auth_error_of (err (library objects i)) =
    pure (some (if is_invalid_auth_error objects i then invalid_auth else cannot_connect))

-- The `except` clause of `_async_resolve_device_id`.
unfoldable pub device_of : {E : Type 0} → Result Text → Exec E (Option Text × Option FlowError)
device_of (ok device_id) = pure (some device_id, none)
device_of (err cancelled) = raise cancelled
device_of (err _) = pure (none, some no_device)

-- The `except` clause around the fetch of the LTMK.
unfoldable pub ltmk_of : {E : Type 0} → Result (List ℕ) → Exec E (Option Text × Option FlowError)
ltmk_of (ok ltmk) = pure (some (hex ltmk), none)
ltmk_of (err cancelled) = raise cancelled
ltmk_of (err _) = pure (none, some ltmk_fetch)

unfoldable pub cloud_form : Mode → Flow → List (ErrorField × FlowError) → FlowResult
cloud_form mode self errors =
    show_form (setup mode) (cloud_schema (manual self)) errors (some self.discovered_name) none

-- `data[CONF_LTMK] = ltmk_hex`, if there is one
unfoldable pub with_ltmk : Option Text → ConfigData → ConfigData
unfolding or_stored
with_ltmk ltmk_hex config = record config { ltmk = or_stored ltmk_hex config.ltmk }

-- `options[CONF_OFFLINE_MODE] = True`, if there is one
unfoldable pub offline_of : Option Text → Option Bool
offline_of none = none
offline_of (some ltmk_hex) = some true

-- `if error: ...`, and the entry
unfoldable pub finish_cloud :
    Mode
    → Flow
    → UserInput
    → ConfigData
    → Text
    → Option Text
    → Option Text × Option FlowError
    → FlowResult
unfolding cloud_form with_ltmk offline_of title_of get_toggle
finish_cloud mode self user_input config address device_id (ltmk_hex, some error) =
    cloud_form mode self ((base, error) ∷ [])
finish_cloud mode self user_input config address device_id (ltmk_hex, none) =
    create_entry (title_of self address)
      (with_ltmk ltmk_hex (record config { device_id = device_id; setup_mode = some mode }))
      (record {
        realtime_state = some (get_toggle user_input.realtime_state);
        poll_hours = none;
        offline_mode = offline_of ltmk_hex;
        keypad_wake_switch = none;
      })

module _ {A E : Type 0} (lib : Cloud A E) where
  -- `_async_auth_error`
  unfoldable pub async_auth_error : ConfigData → Exec E (Option FlowError)
  unfolding auth_error_of
  async_auth_error config = do
    outcome ← attempt (async_validate_cloud_auth lib config)
    auth_error_of outcome

  -- `_async_resolve_device_id`
  unfoldable pub resolve_or_error : ConfigData → Text → Exec E (Option Text × Option FlowError)
  unfolding device_of
  resolve_or_error config mac = do
    outcome ← attempt (async_resolve_device_id lib config (some mac))
    device_of outcome

  -- `device_id` as typed, or `if not error and device_id is None: ...`
  unfoldable pub find_device :
      ConfigData
      → Text
      → Option FlowError
      → (typed : Option Text) → Exec E (Option Text × Option FlowError)
  unfolding resolve_or_error
  find_device config mac none none = resolve_or_error config mac
  find_device config mac none (some device_id) = pure (some device_id, none)
  find_device config mac (some error) typed = pure (typed, some error)

  -- `if not error and mode == SETUP_MODE_CLOUD_CUTTER: ...`; without a device id the `assert` fails
  -- inside the `try`.
  unfoldable pub find_ltmk :
      Mode → ConfigData → Option Text × Option FlowError → Exec E (Option Text × Option FlowError)
  unfolding ltmk_of
  find_ltmk cloud_cutter config (some device_id, none) = do
    outcome ← attempt (async_fetch_ltmk lib config device_id)
    ltmk_of outcome
  find_ltmk cloud_cutter config (none, none) = pure (none, some ltmk_fetch)
  find_ltmk mode config (device_id, error) = pure (none, error)

  -- `_async_cloud_step`, from the address on
  unfoldable pub cloud_step_at : Mode → Flow → UserInput → ConfigData → Text → Exec E FlowResult
  unfolding async_auth_error find_device find_ltmk finish_cloud
  cloud_step_at mode self user_input config address = do
    error ← async_auth_error config
    found ← find_device config address error (non_empty config.device_id)
    ltmk ← find_ltmk mode config found
    pure (finish_cloud mode self user_input config address found.0 ltmk)

module _ {A E : Type 0} (lib : Cloud A E) (ha : FlowHost E) where
  -- `_async_cloud_step`, and with its mode `async_step_cloud` and `async_step_cloud_cutter`
  unfoldable pub async_cloud_step : Mode → Flow → Option UserInput → Exec E FlowResult
  unfolding cloud_form address_of claim cloud_step_at
  async_cloud_step mode self none = pure (cloud_form mode self [])
  async_cloud_step mode self (some user_input) = do
    address ← address_of self (entry_data user_input)
    when (manual self) (claim ha address)
    cloud_step_at lib mode self user_input
        (record (entry_data user_input) { address = some address }) address
