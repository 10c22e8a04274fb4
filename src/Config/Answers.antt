-- ===== src/Config/Answers.antt =====
-- What custom_components/aqara_u200/config_flow.py makes of the answers of the cloud.
pub mod Filled
use haos_aqara.Base.{
  ◌≡◌, ◌≢◌, refl, sym, ap, ◌∙◌, subst, Bool, true, false, not, Option, none, some, is_some, is_none,
  List, [], ◌∷◌, ◌++◌, Text, ℕ, Option-cases, inl, inr, if◌then◌else◌,
}
use mathlib.Core.Option.{map}
use haos_aqara.Errors.{Result, ok, err, aqara, cancelled, library}
use haos_aqara.Exec.{Exec, pure, raise, when, attempt, bind-ok, ◌>>=◌, ◌>>◌}
use haos_aqara.Ltmk.{strip, parse_ltmk}
use haos_aqara.Config.Data.{Mode, local, cloud, cloud_cutter, ConfigData, UserInput, entry_data}
use haos_aqara.Config.Cloud.{
  Cloud, build_cloud_auth, manager_of, async_validate_cloud_auth, async_resolve_device_id,
  async_fetch_ltmk,
}
use haos_aqara.Config.Schema.{
  Schema, Key, Marker, Validator, required, defaulted, optional, auth_schema, address_field,
  cloud_schema, local_schema,
}
use haos_aqara.Config.Flow.{FlowResult, FlowError, Flow, FlowHost, manual, claim, non_empty}
use haos_aqara.Config.Steps.{
  lookup, address_of, auth_error_of, device_of, ltmk_of, async_auth_error, resolve_or_error,
  find_device, find_ltmk, cloud_step_at, async_cloud_step,
}
use haos_aqara.Config.Local.{async_step_local, finish_local}

-- The text of a field
unfoldable pub field : Key → UserInput → Option Text
field Key.address user_input = user_input.address
field Key.region user_input = user_input.region
field Key.account user_input = user_input.account
field Key.password user_input = user_input.password
field Key.device_id user_input = user_input.device_id
field Key.ltmk user_input = user_input.ltmk
field _ user_input = none

-- Home Assistant hands over a form only with all its required fields.
unfoldable pub IsFilled : Schema → UserInput → Type 0
IsFilled [] user_input = Unit
IsFilled ((required key, validator) ∷ schema) user_input =
    (is_some (field key user_input) ≡ true) × IsFilled schema user_input
IsFilled ((defaulted key, validator) ∷ schema) user_input = IsFilled schema user_input
IsFilled ((optional key, validator) ∷ schema) user_input = IsFilled schema user_input

-- The form of a step, and the step itself.
unfoldable pub schema_of : Mode → (manual : Bool) → Schema
schema_of local manual = local_schema manual
schema_of _ manual = cloud_schema manual

unfoldable pub setup_step :
    {A E : Type 0} → Cloud A E → FlowHost E → Mode → Flow → UserInput → Exec E FlowResult
setup_step lib ha local self user_input = async_step_local ha self (some user_input)
setup_step lib ha mode self user_input = async_cloud_step lib ha mode self (some user_input)

unfoldable pub IsUncancelled : {X : Type 0} → Result X → Type 0
IsUncancelled (ok x) = Unit
IsUncancelled (err cancelled) = ⊥
IsUncancelled (err e) = Unit

-- The calls of the cloud end somehow, but are not cancelled; Home Assistant takes the unique id.
pub record IsSteady {A E : Type 0} (lib : Cloud A E) (ha : FlowHost E) : Type 0 where
  pub manager :
      (account password region : Text) (e : E)
      → IsUncancelled (lib.cloud_auth_manager account password region e).0
  pub signer : (auth : A) (e : E) → IsUncancelled (lib.build_signer auth e).0
  pub resolved :
      (auth : A) (mac : Option Text) (e : E) → IsUncancelled (lib.resolve_device_id auth mac e).0
  pub fetched :
      (auth : A) (device_id : Text) (e : E) → IsUncancelled (lib.fetch_ltmk auth device_id e).0
  pub id_set : (address : Text) (e : E) → (ha.async_set_unique_id address e).0 ≡ ok tt
  pub id_free :
      (updated : Option Text) (e : E) → (ha.abort_if_unique_id_configured updated e).0 ≡ ok tt

-- The coroutine comes back.
abbrev pub Returns : {E X : Type 0} → Exec E X → E → Type 0
Returns {E} {X} m e = (x : X) × ((m e).0 ≡ ok x)

module _ {E X Y : Type 0} where
  pub Returns-bind :
      (m : Exec E X) (f : X → Exec E Y) (e : E)
      → Returns m e
      → ((x : X) (e' : E) → Returns (f x) e')
      → Returns (m >>= f) e
  Returns-bind m f e (x, h) k =
      let rest = k x (m e).1 in (rest.0, ap (λ end. end.0) (bind-ok m f e x h) ∙ rest.1)

  bind-IsUncancelled :
      (m : Exec E X) (f : X → Exec E Y) (e : E)
      → IsUncancelled (m e).0
      → ((x : X) (e' : E) → IsUncancelled (f x e').0)
      → IsUncancelled ((m >>= f) e).0
  unfolding IsUncancelled
  bind-IsUncancelled m f e h k = continues (m e) h
    where
      continues :
          (end : Result X × E) → IsUncancelled end.0 → IsUncancelled (◌>>=◌ (λ _. end) f e).0
      continues (ok x, e') h = k x e'
      continues (err cancelled, e') h = h
      continues (err (aqara x), e') h = tt
      continues (err (library objects i), e') h = tt

module _ {E : Type 0} where
  auth_error_of-Returns :
      (outcome : Result (Unit {0})) (e : E)
      → IsUncancelled outcome
      → Returns (auth_error_of outcome) e
  unfolding auth_error_of IsUncancelled
  auth_error_of-Returns (ok tt) e h = (none, refl)
  auth_error_of-Returns (err cancelled) e h = elim h [ ]
  auth_error_of-Returns (err (aqara x)) e h = (_, refl)
  auth_error_of-Returns (err (library objects i)) e h = (_, refl)

  device_of-Returns :
      (outcome : Result Text) (e : E) → IsUncancelled outcome → Returns (device_of outcome) e
  unfolding device_of IsUncancelled
  device_of-Returns (ok device_id) e h = (_, refl)
  device_of-Returns (err cancelled) e h = elim h [ ]
  device_of-Returns (err (aqara x)) e h = (_, refl)
  device_of-Returns (err (library objects i)) e h = (_, refl)

  ltmk_of-Returns :
      (outcome : Result (List ℕ)) (e : E) → IsUncancelled outcome → Returns (ltmk_of outcome) e
  unfolding ltmk_of IsUncancelled
  ltmk_of-Returns (ok key) e h = (_, refl)
  ltmk_of-Returns (err cancelled) e h = elim h [ ]
  ltmk_of-Returns (err (aqara x)) e h = (_, refl)
  ltmk_of-Returns (err (library objects i)) e h = (_, refl)

  attempt-Returns :
      {X Y : Type 0} (m : Exec E X) (f : Result X → Exec E Y) (e : E)
      → IsUncancelled (m e).0
      → ((outcome : Result X) (e' : E) → IsUncancelled outcome → Returns (f outcome) e')
      → Returns (attempt m >>= f) e
  attempt-Returns m f e h k = k (m e).0 (m e).1 h

  pub when-Returns : (test : Bool) (m : Exec E Unit) (e : E) → Returns m e → Returns (when test m) e
  when-Returns true m e h = h
  when-Returns false m e h = (tt, refl)

module _ {A E : Type 0} (lib : Cloud A E) (ha : FlowHost E) (steady : IsSteady lib ha) where
  build_cloud_auth-IsUncancelled :
      (config : ConfigData) (e : E) → IsUncancelled (build_cloud_auth lib config e).0
  unfolding build_cloud_auth manager_of IsUncancelled
  build_cloud_auth-IsUncancelled config e = built config.account config.password config.region
    where
      built :
          (account password region : Option Text)
          → IsUncancelled (manager_of lib account password region e).0
      built none password region = tt
      built (some account) none region = tt
      built (some account) (some password) region = steady.manager account password _ e

  async_auth_error-Returns : (config : ConfigData) (e : E) → Returns (async_auth_error lib config) e
  unfolding async_auth_error async_validate_cloud_auth
  async_auth_error-Returns config e =
      attempt-Returns (async_validate_cloud_auth lib config) auth_error_of e
        (bind-IsUncancelled (build_cloud_auth lib config) lib.build_signer e
          (build_cloud_auth-IsUncancelled config e) steady.signer)
        auth_error_of-Returns

  find_device-Returns :
      (config : ConfigData) (mac : Text) (error : Option FlowError) (typed : Option Text) (e : E)
      → Returns (find_device lib config mac error typed) e
  unfolding find_device resolve_or_error async_resolve_device_id
  find_device-Returns config mac (some x) typed e = (_, refl)
  find_device-Returns config mac none (some device_id) e = (_, refl)
  find_device-Returns config mac none none e =
      attempt-Returns (async_resolve_device_id lib config (some mac)) device_of e
        (bind-IsUncancelled (build_cloud_auth lib config)
          (λ auth. lib.resolve_device_id auth (some mac)) e
          (build_cloud_auth-IsUncancelled config e) (λ auth. steady.resolved auth (some mac)))
        device_of-Returns

  find_ltmk-Returns :
      (mode : Mode) (config : ConfigData) (device_id : Option Text) (error : Option FlowError)
      (e : E)
      → Returns (find_ltmk lib mode config (device_id, error)) e
  unfolding find_ltmk async_fetch_ltmk
  find_ltmk-Returns cloud config device_id error e = (_, refl)
  find_ltmk-Returns local config device_id error e = (_, refl)
  find_ltmk-Returns cloud_cutter config none none e = (_, refl)
  find_ltmk-Returns cloud_cutter config none (some x) e = (_, refl)
  find_ltmk-Returns cloud_cutter config (some device_id) (some x) e = (_, refl)
  find_ltmk-Returns cloud_cutter config (some device_id) none e =
      attempt-Returns (async_fetch_ltmk lib config device_id) ltmk_of e
        (bind-IsUncancelled (build_cloud_auth lib config) (λ auth. lib.fetch_ltmk auth device_id) e
          (build_cloud_auth-IsUncancelled config e) (λ auth. steady.fetched auth device_id))
        ltmk_of-Returns

  pub cloud_step_at-Returns :
      (mode : Mode) (self : Flow) (user_input : UserInput) (config : ConfigData) (address : Text)
      (e : E)
      → Returns (cloud_step_at lib mode self user_input config address) e
  unfolding cloud_step_at
  cloud_step_at-Returns mode self user_input config address e =
      Returns-bind (async_auth_error lib config) _ e (async_auth_error-Returns config e) λ error e'.
        Returns-bind (find_device lib config address error (non_empty config.device_id)) _ e'
          (find_device-Returns config address error (non_empty config.device_id) e')
          λ found e''.
            Returns-bind (find_ltmk lib mode config found) _ e''
              (find_ltmk-Returns mode config found.0 found.1 e'') (λ ltmk e3. (_, refl))

  pub claim-Returns : (address : Text) (e : E) → Returns (claim ha address) e
  unfolding claim
  claim-Returns address e =
      Returns-bind (ha.async_set_unique_id address) _ e (tt, steady.id_set address e)
        λ _ e'. (tt, steady.id_free none e')
