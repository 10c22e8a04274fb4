-- ===== src/Config/Validated.antt =====
-- The entries that the cloud steps of custom_components/aqara_u200/config_flow.py create.
use haos_aqara.Base.{◌≡◌, refl, sym, ap, ◌∙◌, subst, Option, none, some, Text}
use haos_aqara.Errors.{ok}
use haos_aqara.Exec.{when, bind-ok_inv}
use haos_aqara.Config.Data.{or_stored, Mode, ConfigData, EntryOptions, UserInput, entry_data}
use haos_aqara.Config.Cloud.{
  Cloud, async_validate_cloud_auth, async_fetch_ltmk, build_cloud_auth, manager_of,
}
use haos_aqara.Config.Flow.{create_entry, FlowError, Flow, FlowHost, manual, claim, non_empty}
use haos_aqara.Config.Steps.{
  offline_of, address_of, async_auth_error, find_device, find_ltmk, finish_cloud, with_ltmk,
  cloud_form, cloud_step_at, async_cloud_step,
}
use haos_aqara.Config.Created.{created_or}
use haos_aqara.Config.Passed.{
  IsFetched, async_auth_error-none, find_device-none, find_ltmk-error, find_ltmk-none,
}

or_stored-none : (new : Option Text) → or_stored new none ≡ new
unfolding or_stored
or_stored-none none = refl
or_stored-none (some text) = refl

module _ {A E : Type 0} (lib : Cloud A E) where
  -- A config entry of the mode, whose account the cloud has accepted.
  pub record IsAccepted (mode : Mode) (config : ConfigData) (options : EntryOptions) : Type 0 where
    pub address : Text
    pub account : Text
    pub password : Text
    pub device_id : Text
    pub env : E
    pub has_address : config.address ≡ some address
    pub has_account : config.account ≡ some account
    pub has_password : config.password ≡ some password
    pub has_device_id : config.device_id ≡ some device_id
    pub has_mode : config.setup_mode ≡ some mode
    pub accepted : (async_validate_cloud_auth lib config env).0 ≡ ok tt
    pub fetched : IsFetched mode (async_fetch_ltmk lib config) device_id config.ltmk
    pub is_offline : options.offline_mode ≡ offline_of config.ltmk

  manager_of-ok :
      (account password region : Option Text) (e : E) (auth : A)
      → (manager_of lib account password region e).0 ≡ ok auth
      → ((a : Text) × (account ≡ some a)) × ((p : Text) × (password ≡ some p))
  unfolding manager_of
  manager_of-ok none password region e auth h = cc
  manager_of-ok (some a) none region e auth h = cc
  manager_of-ok (some a) (some p) region e auth h = ((a, refl), (p, refl))

  -- An account that was accepted has both its texts.
  manager_of-named :
      (config : ConfigData) (e : E)
      → (async_validate_cloud_auth lib config e).0 ≡ ok tt
      → ((a : Text) × (config.account ≡ some a)) × ((p : Text) × (config.password ≡ some p))
  unfolding async_validate_cloud_auth build_cloud_auth
  manager_of-named config e h =
      let built =
        bind-ok_inv (manager_of lib config.account config.password config.region) lib.build_signer e
          tt h in
      manager_of-ok config.account config.password config.region e built.0 built.1

  finish_cloud-IsAccepted :
      (mode : Mode) (self : Flow) (user_input : UserInput) (config : ConfigData) (address : Text)
      (device_id : Option Text) (ltmk : Option Text) (error : Option FlowError) (env : E)
      → config.address ≡ some address
      → config.ltmk ≡ none
      → (error ≡ none → (async_validate_cloud_auth lib config env).0 ≡ ok tt)
      → (error ≡ none
          → (found : Text) × (device_id ≡ some found)
            × IsFetched mode (async_fetch_ltmk lib config) found ltmk)
      → (title : Text) (created : ConfigData) (options : EntryOptions)
      → finish_cloud mode self user_input config address device_id (ltmk, error)
        ≡ create_entry title created options
      → IsAccepted mode created options
  unfolding finish_cloud cloud_form with_ltmk async_validate_cloud_auth build_cloud_auth
      async_fetch_ltmk
  finish_cloud-IsAccepted mode self user_input config address device_id ltmk (some x) env a l v f
        title created options h =
      cc
  finish_cloud-IsAccepted mode self user_input config address device_id ltmk none env a l v f title
        created options h =
      let found = f refl in
      let named = manager_of-named config env (v refl) in
      let stored : or_stored ltmk config.ltmk ≡ ltmk =
        ap (or_stored ltmk) l ∙ or_stored-none ltmk in
      let written : ConfigData × EntryOptions =
        created_or (created, options)
          (ok (finish_cloud mode self user_input config address device_id (ltmk, none))) in
      let same : written ≡ (created, options) = ap (λ r. created_or (created, options) (ok r)) h in
      subst (λ entry. IsAccepted mode entry.0 entry.1) same
        (record {
          address = address;
          account = named.0.0;
          password = named.1.0;
          device_id = found.0;
          env = env;
          has_address = a;
          has_account = named.0.1;
          has_password = named.1.1;
          has_device_id = found.1;
          has_mode = refl;
          accepted = v refl;
          fetched =
              subst (IsFetched mode (async_fetch_ltmk lib config) found.0) (sym stored) found.2;
          is_offline = ap offline_of (sym stored);
        })

  cloud_step_at-IsAccepted :
      (mode : Mode) (self : Flow) (user_input : UserInput) (config : ConfigData) (address : Text)
      (env : E)
      → config.address ≡ some address
      → config.ltmk ≡ none
      → (title : Text) (created : ConfigData) (options : EntryOptions)
      → (cloud_step_at lib mode self user_input config address env).0
        ≡ ok (create_entry title created options)
      → IsAccepted mode created options
  unfolding cloud_step_at
  cloud_step_at-IsAccepted mode self user_input config address env a l title created options h =
      let checked = bind-ok_inv (async_auth_error lib config) _ env _ h in
      let found =
        bind-ok_inv (find_device lib config address checked.0 (non_empty config.device_id)) _ _ _
          checked.2 in
      let fetched = bind-ok_inv (find_ltmk lib mode config found.0) _ _ _ found.2 in
      let made : finish_cloud mode self user_input config address found.0.0 fetched.0
          ≡ create_entry title created options =
        cc in
      let passed : fetched.0.1 ≡ none → found.0.1 ≡ none = λ e.
        find_ltmk-error lib mode config found.0.0 found.0.1 _ fetched.0.0
          (fetched.1 ∙ ap (λ x. ok (fetched.0.0, x)) e) in
      let resolved : fetched.0.1 ≡ none
          → (checked.0 ≡ none) × ((device_id : Text) × (found.0.0 ≡ some device_id)) =
        λ e.
          find_device-none lib config address checked.0 (non_empty config.device_id) _ found.0.0
            (found.1 ∙ ap (λ x. ok (found.0.0, x)) (passed e)) in
      finish_cloud-IsAccepted mode self user_input config address found.0.0 fetched.0.0 fetched.0.1
        env a l (λ e. async_auth_error-none lib config env (checked.1 ∙ ap ok (resolved e).0))
        (λ e.
          let device = (resolved e).1 in
          (
            device.0,
            device.1,
            (find_ltmk-none lib mode config found.0.0 found.0.1 _ fetched.0.0
                (fetched.1 ∙ ap (λ x. ok (fetched.0.0, x)) e) device.0 device.1).1,
          ))
        title created options made

module _ {A E : Type 0} (lib : Cloud A E) (ha : FlowHost E) where
  -- An entry that a cloud step creates from an input without an LTMK has an address, a device id, and
  -- an account and a password that the cloud has accepted; in the cloud-cutter mode it has the
  -- hexadecimal text of a key that was fetched for this device and the offline mode on, in the cloud
  -- mode neither.
  pub async_cloud_step-IsAccepted :
      (mode : Mode) (self : Flow) (user_input : UserInput) (env : E)
      → user_input.ltmk ≡ none
      → (title : Text) (config : ConfigData) (options : EntryOptions)
      → (async_cloud_step lib ha mode self (some user_input) env).0
        ≡ ok (create_entry title config options)
      → IsAccepted lib mode config options
  unfolding async_cloud_step entry_data
  async_cloud_step-IsAccepted mode self user_input env l title config options h =
      let addressed = bind-ok_inv (address_of self (entry_data user_input)) _ env _ h in
      let claimed = bind-ok_inv (when (manual self) (claim ha addressed.0)) _ _ _ addressed.2 in
      cloud_step_at-IsAccepted lib mode self user_input _ addressed.0 _ refl (rw l) title config
        options claimed.2
