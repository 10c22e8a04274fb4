-- ===== src/Config/Reauth.antt =====
-- The answers of the cloud to the credentials, and the reauthentication
-- (custom_components/aqara_u200/config_flow.py).
use haos_aqara.Base.{◌≡◌, refl, ap, ◌∙◌, ◌↔◌, ℕ, true, Option, none, some, Bool-cases, inl, inr}
use haos_aqara.Errors.{ok, err, Result, Objects, aqara, cancelled, library}
use haos_aqara.Errors.Chain.{is_invalid_auth_error}
use haos_aqara.Exec.{pure, bind-ok, bind-ok_inv}
use haos_aqara.Config.Data.{or_stored, ConfigData, UserInput, entry_data}
use haos_aqara.Config.Cloud.{Cloud, async_validate_cloud_auth}
use haos_aqara.Config.Flow.{update_reload_and_abort, FlowError, invalid_auth}
use haos_aqara.Config.Steps.{auth_error_of, async_auth_error}
use haos_aqara.Config.Local.{merge, reauth_form, finish_reauth, async_step_reauth_confirm}
use haos_aqara.Config.Passed.{async_auth_error-none}

-- The exception that `is_invalid_auth_error` knows by its chain.
abbrev pub IsRefusal : Result (Unit {0}) → Type 0
IsRefusal outcome =
    (objects : Objects) × (i : ℕ) × (outcome ≡ err (library objects i))
    × (is_invalid_auth_error objects i ≡ true)

auth_error_of-refused :
    {E : Type 0} (outcome : Result (Unit {0})) (e : E)
    → ((auth_error_of outcome e).0 ≡ ok (some invalid_auth))
    → IsRefusal outcome
unfolding auth_error_of
auth_error_of-refused (ok tt) e h = cc
auth_error_of-refused (err cancelled) e h = cc
auth_error_of-refused (err (aqara x)) e h = cc
auth_error_of-refused (err (library objects i)) e h =
    elim (Bool-cases (is_invalid_auth_error objects i)) [
      | inl yes_auth ↦ (objects, i, refl, yes_auth)
      | inr no_auth ↦ cc
    ]

auth_error_of-IsRefusal :
    {E : Type 0} (outcome : Result (Unit {0})) (e : E)
    → IsRefusal outcome
    → (auth_error_of outcome e).0 ≡ ok (some invalid_auth)
unfolding auth_error_of
auth_error_of-IsRefusal outcome e (objects, i, h, refused) = rw (h, refused)

auth_error_of-passed :
    {E : Type 0} (outcome : Result (Unit {0})) (e : E)
    → outcome ≡ ok tt
    → (auth_error_of outcome e).0 ≡ ok none
unfolding auth_error_of
auth_error_of-passed outcome e h = rw h

auth_error_of-cancelled :
    {E : Type 0} (outcome : Result (Unit {0})) (e : E)
    → ((auth_error_of outcome e).0 ≡ err cancelled) ↔ (outcome ≡ err cancelled)
unfolding auth_error_of
auth_error_of-cancelled (ok tt) e = (λ h. cc, λ h. cc)
auth_error_of-cancelled (err cancelled) e = (λ h. refl, λ h. refl)
auth_error_of-cancelled (err (aqara x)) e = (λ h. cc, λ h. cc)
auth_error_of-cancelled (err (library objects i)) e = (λ h. cc, λ h. cc)

module _ {A E : Type 0} (lib : Cloud A E) where
  -- The credentials check answers no error exactly if the cloud accepts them, `invalid_auth` exactly
  -- if the chain of the exception has the code 810, and is cancelled exactly if the cloud's check is.
  pub async_auth_error-answers :
      (config : ConfigData) (e : E)
      → (((async_auth_error lib config e).0 ≡ ok none)
          ↔ ((async_validate_cloud_auth lib config e).0 ≡ ok tt))
        × (((async_auth_error lib config e).0 ≡ ok (some invalid_auth))
            ↔ IsRefusal (async_validate_cloud_auth lib config e).0)
        × (((async_auth_error lib config e).0 ≡ err cancelled)
            ↔ ((async_validate_cloud_auth lib config e).0 ≡ err cancelled))
  unfolding async_auth_error
  async_auth_error-answers config e =
      let end = async_validate_cloud_auth lib config e in
      (
        (async_auth_error-none lib config e, auth_error_of-passed end.0 end.1),
        (auth_error_of-refused end.0 end.1, auth_error_of-IsRefusal end.0 end.1),
        auth_error_of-cancelled end.0 end.1,
      )

  finish_reauth-updates :
      (entry updates : ConfigData) (error : Option FlowError)
      → (finish_reauth entry updates error ≡ update_reload_and_abort updates)
      → error ≡ none
  unfolding finish_reauth reauth_form
  finish_reauth-updates entry updates none h = refl
  finish_reauth-updates entry updates (some x) h = cc

  reauth-updates :
      (entry : ConfigData) (user_input : UserInput) (e : E)
      → (async_step_reauth_confirm lib entry (some user_input) e).0
        ≡ ok (update_reload_and_abort (entry_data user_input))
      → (async_validate_cloud_auth lib (merge entry (entry_data user_input)) e).0 ≡ ok tt
  unfolding async_step_reauth_confirm
  reauth-updates entry user_input e h =
      let candidate = merge entry (entry_data user_input) in
      let tried = bind-ok_inv (async_auth_error lib candidate) _ e _ h in
      let made : finish_reauth entry (entry_data user_input) tried.0
          ≡ update_reload_and_abort (entry_data user_input) =
        cc in
      async_auth_error-none lib candidate e
        (tried.1 ∙ ap ok (finish_reauth-updates entry (entry_data user_input) tried.0 made))

  reauth-accepted :
      (entry : ConfigData) (user_input : UserInput) (e : E)
      → (async_validate_cloud_auth lib (merge entry (entry_data user_input)) e).0 ≡ ok tt
      → (async_step_reauth_confirm lib entry (some user_input) e).0
        ≡ ok (update_reload_and_abort (entry_data user_input))
  unfolding async_step_reauth_confirm finish_reauth async_auth_error
  reauth-accepted entry user_input e h =
      let candidate = merge entry (entry_data user_input) in
      let end = async_validate_cloud_auth lib candidate e in
      let ends =
        bind-ok (async_auth_error lib candidate)
          (λ error. pure (finish_reauth entry (entry_data user_input) error)) e none
          (auth_error_of-passed end.0 end.1 h) in
      ap (λ x. x.0) ends

  -- The reauthentication stores the new credentials exactly if the cloud accepts the entry with them,
  -- and an input of an account and a password leaves the rest of the data.
  pub async_step_reauth_confirm_iff :
      (entry : ConfigData) (user_input : UserInput) (e : E)
      → user_input.address ≡ none
      → user_input.region ≡ none
      → user_input.device_id ≡ none
      → user_input.ltmk ≡ none
      → (((async_step_reauth_confirm lib entry (some user_input) e).0
            ≡ ok (update_reload_and_abort (entry_data user_input)))
          ↔ ((async_validate_cloud_auth lib (merge entry (entry_data user_input)) e).0 ≡ ok tt))
        × (merge entry (entry_data user_input) ≡ record entry {
          account = or_stored (entry_data user_input).account entry.account;
          password = or_stored user_input.password entry.password;
        })
  unfolding async_step_reauth_confirm merge or_stored entry_data
  async_step_reauth_confirm_iff entry user_input e a r d l =
      ((reauth-updates entry user_input e, reauth-accepted entry user_input e), rw (a, r, d, l))
