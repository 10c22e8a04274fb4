-- ===== src/Config/Cloud.antt =====
-- The set-up helpers of custom_components/aqara_u200/client.py, which call the cloud part of aqara-ble.
use haos_aqara.Base.{ℕ, Option, none, some, List, Text}
use haos_aqara.Errors.Builtin.{key_error}
use haos_aqara.Exec.{Exec, raise, ◌>>=◌}
use haos_aqara.Config.Data.{ConfigData, default_region}

-- `CloudAuthManager` of the library: `A` are the managers, `E` is the state of everything behind it.
pub record Cloud (A E : Type 0) : Type 0 where
  pub cloud_auth_manager : (account password region : Text) → Exec E A
  pub build_signer : A → Exec E (Unit {0})
  pub resolve_device_id : A → (mac : Option Text) → Exec E Text
  pub fetch_ltmk : A → (device_id : Text) → Exec E (List ℕ)

unfoldable pub get_or_default : Text → Option Text → Text
get_or_default default none = default
get_or_default default (some value) = value

module _ {A E : Type 0} (lib : Cloud A E) where
  -- `config[CONF_ACCOUNT]` and `config[CONF_PASSWORD]`
  unfoldable pub manager_of : (account password : Option Text) → Option Text → Exec E A
  unfolding get_or_default
  manager_of (some account) (some password) region =
      lib.cloud_auth_manager account password (get_or_default default_region region)
  manager_of (some _) none region = raise key_error
  manager_of none password region = raise key_error

  unfoldable pub build_cloud_auth : ConfigData → Exec E A
  unfolding manager_of
  build_cloud_auth config = manager_of config.account config.password config.region

  unfoldable pub async_validate_cloud_auth : ConfigData → Exec E (Unit {0})
  unfolding build_cloud_auth
  async_validate_cloud_auth config = do auth ← build_cloud_auth config; lib.build_signer auth

  unfoldable pub async_resolve_device_id : ConfigData → (mac : Option Text) → Exec E Text
  unfolding build_cloud_auth
  async_resolve_device_id config mac = do
    auth ← build_cloud_auth config
    lib.resolve_device_id auth mac

  unfoldable pub async_fetch_ltmk : ConfigData → (device_id : Text) → Exec E (List ℕ)
  unfolding build_cloud_auth
  async_fetch_ltmk config device_id = do
    auth ← build_cloud_auth config
    lib.fetch_ltmk auth device_id
