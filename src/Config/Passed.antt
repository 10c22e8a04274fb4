-- ===== src/Config/Passed.antt =====
-- What the calls of the cloud have answered where a cloud step of
-- custom_components/aqara_u200/config_flow.py goes on without an error.
use haos_aqara.Base.{◌≡◌, refl, ◌∙◌, subst, ℕ, Option, none, some, List, Text}
use haos_aqara.Errors.{ok, err, Result, aqara, cancelled, library}
use haos_aqara.Exec.{Exec, attempt, bind-ok_inv}
use haos_aqara.Ltmk.{hex}
use haos_aqara.Config.Data.{Mode, local, cloud, cloud_cutter, ConfigData}
use haos_aqara.Config.Cloud.{
  Cloud, async_validate_cloud_auth, async_resolve_device_id, async_fetch_ltmk,
}
use haos_aqara.Config.Flow.{FlowError}
use haos_aqara.Config.Steps.{
  auth_error_of, device_of, ltmk_of, async_auth_error, resolve_or_error, find_device, find_ltmk,
}

auth_error_of-none :
    {E : Type 0} (outcome : Result (Unit {0})) (e : E)
    → (auth_error_of outcome e).0 ≡ ok none
    → outcome ≡ ok tt
unfolding auth_error_of
auth_error_of-none (ok tt) e h = refl
auth_error_of-none (err cancelled) e h = cc
auth_error_of-none (err (aqara x)) e h = cc
auth_error_of-none (err (library objects i)) e h = cc

device_of-none :
    {E : Type 0} (outcome : Result Text) (e : E) (found : Option Text)
    → (device_of outcome e).0 ≡ ok (found, none)
    → (device_id : Text) × (found ≡ some device_id)
unfolding device_of
device_of-none (ok device_id) e found h = (device_id, cc)
device_of-none (err cancelled) e found h = cc
device_of-none (err (aqara x)) e found h = cc
device_of-none (err (library objects i)) e found h = cc

ltmk_of-none :
    {E : Type 0} (outcome : Result (List ℕ)) (e : E) (found : Option Text)
    → (ltmk_of outcome e).0 ≡ ok (found, none)
    → (key : List ℕ) × (outcome ≡ ok key) × (found ≡ some (hex key))
unfolding ltmk_of
ltmk_of-none (ok key) e found h = (key, refl, cc)
ltmk_of-none (err cancelled) e found h = cc
ltmk_of-none (err (aqara x)) e found h = cc
ltmk_of-none (err (library objects i)) e found h = cc

module _ {A E : Type 0} (lib : Cloud A E) where
  pub async_auth_error-none :
      (config : ConfigData) (e : E)
      → (async_auth_error lib config e).0 ≡ ok none
      → (async_validate_cloud_auth lib config e).0 ≡ ok tt
  unfolding async_auth_error
  async_auth_error-none config e h =
      let tried =
        bind-ok_inv (attempt (async_validate_cloud_auth lib config)) auth_error_of e none h in
      let same : (async_validate_cloud_auth lib config e).0 ≡ tried.0 = cc in
      same ∙ auth_error_of-none tried.0 _ tried.2

  pub find_device-none :
      (config : ConfigData) (mac : Text) (error : Option FlowError) (typed : Option Text) (e : E)
      (found : Option Text)
      → (find_device lib config mac error typed e).0 ≡ ok (found, none)
      → (error ≡ none) × ((device_id : Text) × (found ≡ some device_id))
  unfolding find_device resolve_or_error
  find_device-none config mac (some x) typed e found h = cc
  find_device-none config mac none (some device_id) e found h = (refl, (device_id, cc))
  find_device-none config mac none none e found h =
      let tried =
        bind-ok_inv (attempt (async_resolve_device_id lib config (some mac))) device_of e
          (found, none) h in
      (refl, device_of-none tried.0 _ found tried.2)

-- What a step has of the LTMK when it ends without an error: in the cloud-cutter mode the hexadecimal
-- text of a key that was fetched.
unfoldable pub IsFetched :
    {E : Type 0} → Mode → (fetch : Text → Exec E (List ℕ)) → Text → Option Text → Type 0
IsFetched {E} cloud_cutter fetch device_id ltmk =
    (key : List ℕ) × (e : E) × ((fetch device_id e).0 ≡ ok key) × (ltmk ≡ some (hex key))
IsFetched _ fetch device_id ltmk = ltmk ≡ none

module _ {A E : Type 0} (lib : Cloud A E) where
  pub find_ltmk-error :
      (mode : Mode) (config : ConfigData) (device_id : Option Text) (error : Option FlowError)
      (e : E) (ltmk : Option Text)
      → (find_ltmk lib mode config (device_id, error) e).0 ≡ ok (ltmk, none)
      → error ≡ none
  unfolding find_ltmk
  find_ltmk-error cloud config device_id error e ltmk h = cc
  find_ltmk-error local config device_id error e ltmk h = cc
  find_ltmk-error cloud_cutter config device_id none e ltmk h = refl
  find_ltmk-error cloud_cutter config none (some x) e ltmk h = cc
  find_ltmk-error cloud_cutter config (some device_id) (some x) e ltmk h = cc

  pub find_ltmk-none :
      (mode : Mode) (config : ConfigData) (device_id : Option Text) (error : Option FlowError)
      (e : E) (ltmk : Option Text)
      → (find_ltmk lib mode config (device_id, error) e).0 ≡ ok (ltmk, none)
      → (found : Text) → device_id ≡ some found
      → (error ≡ none) × IsFetched mode (async_fetch_ltmk lib config) found ltmk
  unfolding find_ltmk IsFetched
  find_ltmk-none cloud config device_id error e ltmk h found d = (cc, cc)
  find_ltmk-none local config device_id error e ltmk h found d = (cc, cc)
  find_ltmk-none cloud_cutter config none none e ltmk h found d = cc
  find_ltmk-none cloud_cutter config none (some x) e ltmk h found d = cc
  find_ltmk-none cloud_cutter config (some device_id) (some x) e ltmk h found d = cc
  find_ltmk-none cloud_cutter config (some device_id) none e ltmk h found d =
      let tried =
        bind-ok_inv (attempt (async_fetch_ltmk lib config device_id)) ltmk_of e (ltmk, none) h in
      let same : (async_fetch_ltmk lib config device_id e).0 ≡ tried.0 = cc in
      let key = ltmk_of-none tried.0 _ ltmk tried.2 in
      let named : device_id ≡ found = cc in
      (
        refl,
        (
          key.0,
          e,
          subst (λ d. (async_fetch_ltmk lib config d e).0 ≡ ok key.0) named (same ∙ key.1),
          key.2,
        ),
      )
