-- ===== src/Config/Created.antt =====
-- The entries that the steps of custom_components/aqara_u200/config_flow.py create.
use haos_aqara.Base.{◌≡◌, refl, ap, ◌∙◌, subst, ℕ, true, Option, none, some, List, Text}
use mathlib.Core.Option.{map}
use haos_aqara.Errors.{ok, Result}
use haos_aqara.Exec.{when, bind-ok_inv}
use haos_aqara.Ltmk.{parse_ltmk, strip}
use haos_aqara.Ltmk.Keys.{IsKey, parse_ltmk-IsKey}
use haos_aqara.Config.Data.{ConfigData, EntryOptions, UserInput, entry_data, default_region}
use haos_aqara.Config.Cloud.{Cloud, get_or_default}
use haos_aqara.Config.Flow.{FlowResult, create_entry, Flow, FlowHost, manual, claim}
use haos_aqara.Config.Steps.{lookup, address_of}
use haos_aqara.Config.Local.{async_step_local, finish_local, local_entry, local_form}
use haos_aqara.Setup.Credentials.{setup_client}
use haos_aqara.Setup.Restored.{setup_client-local}

-- What a step has created, if it has.
abbrev pub created_or : ConfigData × EntryOptions → Result FlowResult → ConfigData × EntryOptions
created_or default (ok (create_entry title config options)) = (config, options)
created_or default _ = default

-- The entry of a key, and what the set-up makes of it: an adapter with this key and no account.
pub record IsLocal {A E : Type 0} (lib : Cloud A E) (env : E) (key : List ℕ) (config : ConfigData)
    (options : EntryOptions) : Type 0 where
  pub offline_mode : options.offline_mode ≡ some true
  pub account : config.account ≡ none
  pub device_id : Text
  pub set_up : setup_client lib config env ≡ (
    ok (record { auth = none; device_id = device_id; region = default_region; ltmk = some key }),
    env,
  )

lookup-ok :
    {E : Type 0} (value : Option Text) (env : E) (found : Text)
    → (lookup value env).0 ≡ ok found
    → value ≡ some found
unfolding lookup
lookup-ok none env found h = cc
lookup-ok (some value) env found h = cc

stripped :
    (value : Option Text) (found : Text)
    → map strip value ≡ some found
    → (typed : Text) × (value ≡ some typed) × (strip typed ≡ found)
stripped none found h = cc
stripped (some typed) found h = (typed, refl, cc)

module _ {A E : Type 0} (lib : Cloud A E) (env : E) where
  local_entry-IsLocal :
      (self : Flow) (user_input : UserInput) (address device_id : Text) (key : List ℕ)
      → IsKey key
      → (title : Text) (config : ConfigData) (options : EntryOptions)
      → local_entry self user_input address device_id key ≡ create_entry title config options
      → IsLocal lib env key config options
  unfolding local_entry get_or_default
  local_entry-IsLocal self user_input address device_id key valid title config options h =
      let written : ConfigData × EntryOptions =
        created_or (config, options) (ok (local_entry self user_input address device_id key)) in
      let same : written ≡ (config, options) = ap (λ r. created_or (config, options) (ok r)) h in
      subst (λ entry. IsLocal lib env key entry.0 entry.1) same
        (record {
          offline_mode = refl;
          account = refl;
          device_id = device_id;
          set_up =
              setup_client-local lib written.0 address device_id key env refl refl refl refl valid;
        })

module _ {A E E' : Type 0} (lib : Cloud A E) (env : E) (ha : FlowHost E') where
  finish_local-IsLocal :
      (self : Flow) (user_input : UserInput) (config : ConfigData) (address : Text)
      (ltmk : Option (List ℕ)) (e : E')
      → ((key : List ℕ) → ltmk ≡ some key → IsKey key)
      → (title : Text) (created : ConfigData) (options : EntryOptions)
      → (finish_local ha self user_input config address ltmk e).0
        ≡ ok (create_entry title created options)
      → (key : List ℕ) × (ltmk ≡ some key) × IsLocal lib env key created options
  unfolding finish_local local_form
  finish_local-IsLocal self user_input config address none e valid title created options h = cc
  finish_local-IsLocal self user_input config address (some key) e valid title created options h =
      let claimed = bind-ok_inv (when (manual self) (claim ha address)) _ e _ h in
      let found = bind-ok_inv (lookup config.device_id) _ _ _ claimed.2 in
      let same : local_entry self user_input address found.0 key
          ≡ create_entry title created options =
        cc in
      (
        key,
        refl,
        local_entry-IsLocal lib env self user_input address found.0 key (valid key refl) title
            created options same,
      )

  -- An entry that the local step creates has the key that `parse_ltmk` has read of the stripped text
  -- that was typed, no account and the offline mode on, and its set-up comes to an adapter with
  -- exactly this key and leaves the state behind the cloud as it is.
  pub async_step_local-IsLocal :
      (self : Flow) (user_input : UserInput) (e : E')
      → (title : Text) (config : ConfigData) (options : EntryOptions)
      → (async_step_local ha self (some user_input) e).0 ≡ ok (create_entry title config options)
      → (typed : Text) × (key : List ℕ) × (user_input.ltmk ≡ some typed)
        × (parse_ltmk (strip typed) ≡ some key)
        × IsLocal lib env key config options
  unfolding async_step_local entry_data
  async_step_local-IsLocal self user_input e title config options h =
      let addressed = bind-ok_inv (address_of self (entry_data user_input)) _ e _ h in
      let looked = bind-ok_inv (lookup (entry_data user_input).ltmk) _ _ _ addressed.2 in
      let typed =
        stripped user_input.ltmk looked.0
          (lookup-ok (entry_data user_input).ltmk _ looked.0 looked.1) in
      let made =
        finish_local-IsLocal self user_input (entry_data user_input) addressed.0
          (parse_ltmk looked.0) _ (λ key read. (parse_ltmk-IsKey looked.0 key read).0) title config
          options looked.2 in
      (typed.0, made.0, typed.1, ap parse_ltmk typed.2 ∙ made.1, made.2)
