-- ===== src/Setup/Accepted.antt =====
-- That the set-up of custom_components/aqara_u200/__init__.py comes from an entry of a cloud step of
-- custom_components/aqara_u200/config_flow.py to an adapter with its account and its key.
use haos_aqara.Base.{
  ◌≡◌, refl, ap, ◌∙◌, ℕ, Bool, true, false, Option, none, some, is_some, List, Text,
}
use mathlib.Core.Option.{map}
use haos_aqara.Errors.{ok}
use haos_aqara.Exec.{Exec, bind-ok, bind-ok_inv, attempt, ◌>>=◌}
use haos_aqara.Ltmk.{hex}
use haos_aqara.Ltmk.Keys.{IsKey}
use haos_aqara.Config.Data.{
  Mode, cloud, local, cloud_cutter, ConfigData, EntryOptions, UserInput, default_region,
}
use haos_aqara.Config.Cloud.{Cloud, get_or_default, build_cloud_auth, async_fetch_ltmk}
use haos_aqara.Config.Flow.{create_entry, Flow, FlowHost}
use haos_aqara.Config.Steps.{async_cloud_step, lookup}
use haos_aqara.Config.Passed.{IsFetched}
use haos_aqara.Config.Validated.{IsAccepted, async_cloud_step-IsAccepted}
use haos_aqara.Setup.Credentials.{
  setup_client, stored_key, auth_of, manager_or_refused, constructed_adapter,
}
use haos_aqara.Client.Offline.{new_adapter}
use haos_aqara.Setup.Restored.{stored_key-hex}

abbrev pub is_cutter : Mode → Bool
is_cutter cloud_cutter = true
is_cutter _ = false

bind-run :
    {S A B : Type 0} (m : Exec S A) (f : A → Exec S B) (s : S) (a : A) (s' : S)
    → m s ≡ (ok a, s')
    → (m >>= f) s ≡ f a s'
bind-run m f s a s' h = bind-ok m f s a (ap (λ r. r.0) h) ∙ ap (λ r. f a r.1) h

lookup-some :
    {E : Type 0} (value : Option Text) (text : Text) (env : E)
    → value ≡ some text
    → lookup value env ≡ (ok text, env)
unfolding lookup
lookup-some value text env h = rw h refl

module _ {A E : Type 0} (lib : Cloud A E) where
  -- The set-up of an entry, where the library makes the manager `auth`: the adapter has this manager,
  -- the device id of the entry, and the key whose text the entry has, which it has in the
  -- cloud-cutter mode only.
  pub record SetsUp (mode : Mode) (config : ConfigData) (auth : A) (env env' : E) : Type 0 where
    pub device_id : Text
    pub ltmk : Option (List ℕ)
    pub has_device_id : config.device_id ≡ some device_id
    pub same_key : config.ltmk ≡ map hex ltmk
    pub keyed : is_some ltmk ≡ is_cutter mode
    pub set_up : setup_client lib config env ≡ (
      ok (record {
        auth = some auth;
        device_id = device_id;
        region = get_or_default default_region config.region;
        ltmk = ltmk;
      }),
      env',
    )

  auth_of-built :
      (config : ConfigData) (ltmk : Option (List ℕ)) (account : Option Text) (text : Text)
      (auth : A) (env env' : E)
      → account ≡ some text
      → build_cloud_auth lib config env ≡ (ok auth, env')
      → auth_of lib config ltmk account env ≡ (ok (some auth), env')
  unfolding auth_of manager_or_refused
  auth_of-built config ltmk none text auth env env' named built = cc
  auth_of-built config ltmk (some account) text auth env env' named built =
      bind-run (attempt (build_cloud_auth lib config)) manager_or_refused env (ok auth) env'
        (ap (λ r. (ok r.0, r.1)) built)

  module _
      (handed_out : (auth : A) (device_id : Text) (e : E) (key : List ℕ)
        → (lib.fetch_ltmk auth device_id e).0 ≡ ok key
        → IsKey key) where
    fetched-IsKey :
        (config : ConfigData) (device_id : Text) (e : E) (key : List ℕ)
        → (async_fetch_ltmk lib config device_id e).0 ≡ ok key
        → IsKey key
    unfolding async_fetch_ltmk
    fetched-IsKey config device_id e key h =
        let (auth, built, fetches) = bind-ok_inv (build_cloud_auth lib config) _ e key h in
        handed_out auth device_id _ key fetches

    -- What the text of the key is read as.
    read_back :
        (mode : Mode) (config : ConfigData) (device_id : Text) (text : Option Text)
        → IsFetched mode (async_fetch_ltmk lib config) device_id text
        → (ltmk : Option (List ℕ)) × (text ≡ map hex ltmk)
          × (is_some ltmk ≡ is_cutter mode)
          × ((env : E) → stored_key text env ≡ (ok ltmk, env))
    unfolding IsFetched stored_key
    read_back cloud config device_id text h = (none, h, refl, λ env. rw h refl)
    read_back local config device_id text h = (none, h, refl, λ env. rw h refl)
    read_back cloud_cutter config device_id text (key, e, fetches, h) = (
      some key,
      h,
      refl,
      λ env. rw h (stored_key-hex key env (fetched-IsKey config device_id e key fetches)),
    )

    accepted-SetsUp :
        (mode : Mode) (config : ConfigData) (options : EntryOptions) (auth : A) (env env' : E)
        → IsAccepted lib mode config options
        → build_cloud_auth lib config env ≡ (ok auth, env')
        → SetsUp mode config auth env env'
    unfolding setup_client constructed_adapter new_adapter
    accepted-SetsUp mode config options auth env env' h built =
        let (ltmk, same, keyed, reads) = read_back mode config h.device_id config.ltmk h.fetched in
        record {
          device_id = h.device_id;
          ltmk = ltmk;
          has_device_id = h.has_device_id;
          same_key = same;
          keyed = keyed;
          set_up =
              bind-run (lookup config.address) _ env h.address env
                (lookup-some config.address h.address env h.has_address)
              ∙ bind-run (stored_key config.ltmk) _ env ltmk env (reads env)
              ∙ bind-run (auth_of lib config ltmk config.account) _ env (some auth) env' (
                  auth_of-built config ltmk config.account h.account auth env env' h.has_account
                    built)
              ∙ bind-run (lookup config.device_id) _ env' h.device_id env'
                  (lookup-some config.device_id h.device_id env' h.has_device_id);
        }

    -- If a cloud step creates an entry from an input without an LTMK, and the library makes a manager of
    -- the account of this entry and hands out keys of 32 bytes, the set-up of the entry comes to an
    -- adapter with this manager and the device id of the entry, in the cloud-cutter mode with the key
    -- whose text the entry has, in the cloud mode without one.
    pub async_cloud_step-SetsUp :
        (ha : FlowHost E) (mode : Mode) (self : Flow) (user_input : UserInput) (env : E)
        → user_input.ltmk ≡ none
        → (title : Text) (config : ConfigData) (options : EntryOptions)
        → (async_cloud_step lib ha mode self (some user_input) env).0
          ≡ ok (create_entry title config options)
        → (auth : A) (now after : E) → build_cloud_auth lib config now ≡ (ok auth, after)
        → SetsUp mode config auth now after
    async_cloud_step-SetsUp ha mode self user_input env l title config options h auth now after =
        accepted-SetsUp mode config options auth now after
          (async_cloud_step-IsAccepted lib ha mode self user_input env l title config options h)
