-- ===== src/Config/Schema.antt =====
-- The forms of custom_components/aqara_u200/config_flow.py, as their markers and validators.
use haos_aqara.Base.{ℕ, Bool, List, [], ◌∷◌, ◌++◌, if◌then◌else◌}

pub data Key : Type 0 where
  address region account password device_id ltmk realtime_state : Key
  poll_hours offline_mode keypad_wake_switch : Key

-- `vol.Required` with a default and without, `vol.Optional`.
pub data Marker : Type 0 where
  required : Key → Marker
  defaulted : Key → Marker
  optional : Key → Marker

-- What a field takes.
pub data Validator : Type 0 where
  non_empty_text non_empty_password supported_region bool switch_entity : Validator
  number : (least greatest step : ℕ) → Validator

abbrev pub Schema : Type 0
Schema = List (Marker × Validator)

-- `_auth_schema`
unfoldable pub auth_schema : Schema
auth_schema = (required account, non_empty_text) ∷ (required password, non_empty_password) ∷ []

unfoldable pub address_field : (manual : Bool) → Schema
address_field manual = if manual then (required address, non_empty_text) ∷ [] else []

-- `_cloud_schema`
unfoldable pub cloud_schema : (manual : Bool) → Schema
unfolding auth_schema address_field
cloud_schema manual =
    address_field manual
    ++ ((defaulted region, supported_region) ∷ [])
    ++ auth_schema
    ++ ((optional device_id, non_empty_text) ∷ (defaulted realtime_state, bool) ∷ [])

-- `_local_schema`
unfoldable pub local_schema : (manual : Bool) → Schema
unfolding address_field
local_schema manual =
    address_field manual
    ++ ((required device_id, non_empty_text)
        ∷ (required ltmk, non_empty_text)
        ∷ (defaulted realtime_state, bool)
        ∷ [])
