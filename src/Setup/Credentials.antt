-- ===== src/Setup/Credentials.antt =====
-- What `async_setup_entry` of custom_components/aqara_u200/__init__.py makes of the data of the entry:
-- the key, the cloud account and the adapter.
use haos_aqara.Base.{ℕ, Option, none, some, List, [], ◌∷◌, Text, ◌==◌, string_eq, if◌then◌else◌}
use haos_aqara.Errors.{Result, ok, err, type_name}
use haos_aqara.Errors.Builtin.{value_error, config_entry_auth_failed}
use haos_aqara.Exec.{Exec, pure, raise, attempt, ◌>>=◌}
use haos_aqara.Ltmk.{from_hex}
use haos_aqara.Client.Session.{Adapter}
use haos_aqara.Client.Offline.{new_adapter}
use haos_aqara.Config.Data.{ConfigData, default_region}
use haos_aqara.Config.Cloud.{Cloud, get_or_default, build_cloud_auth}
use haos_aqara.Config.Steps.{lookup}

-- `bytes.fromhex(ltmk_hex) if ltmk_hex else None`
unfoldable pub stored_key : {E : Type 0} → Option Text → Exec E (Option (List ℕ))
stored_key none = pure none
stored_key (some []) = pure none
stored_key (some (c ∷ s)) = elim (from_hex (c ∷ s)) [
  | some key ↦ pure (some key)
  | none ↦ raise value_error
]

-- The `except KeyError` clause.
unfoldable pub manager_or_refused : {A E : Type 0} → Result A → Exec E (Option A)
unfolding type_name
manager_or_refused (ok auth) = pure (some auth)
manager_or_refused (err e) =
    if type_name e == "KeyError" then raise config_entry_auth_failed else raise e

module _ {A E : Type 0} (lib : Cloud A E) where
  unfoldable pub auth_of :
      ConfigData → Option (List ℕ) → (account : Option Text) → Exec E (Option A)
  unfolding manager_or_refused build_cloud_auth
  auth_of config ltmk (some account) = do
    outcome ← attempt (build_cloud_auth lib config)
    manager_or_refused outcome
  auth_of config (some key) none = pure none
  auth_of config none none = raise config_entry_auth_failed

  -- `AqaraU200BleClientAdapter(...)`
  unfoldable pub constructed_adapter :
      Option A → (device_id region : Text) → Option (List ℕ) → Exec E (Adapter A)
  unfolding new_adapter
  constructed_adapter auth device_id region ltmk = elim (new_adapter auth device_id region ltmk) [
    | some self ↦ pure self
    | none ↦ raise value_error
  ]

  -- `async_setup_entry`, up to the adapter
  unfoldable pub setup_client : ConfigData → Exec E (Adapter A)
  unfolding lookup stored_key auth_of get_or_default constructed_adapter
  setup_client config = do
    _ ← lookup config.address
    ltmk ← stored_key config.ltmk
    auth ← auth_of config ltmk config.account
    device_id ← lookup config.device_id
    constructed_adapter auth device_id (get_or_default default_region config.region) ltmk
