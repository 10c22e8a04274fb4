-- ===== src/Config/Answers/Filled.antt =====
-- The forms of custom_components/aqara_u200/config_flow.py with all their required fields, and the steps
-- that read them.
use haos_aqara.Base.{
  ◌≡◌, ◌≢◌, refl, ap, ◌∙◌, subst, Bool, true, false, Option, none, some, is_some, List, [], ◌∷◌,
  Text, ℕ, Option-cases, inl, inr,
}
use mathlib.Core.Option.{map}
use haos_aqara.Errors.{ok}
use haos_aqara.Exec.{when}
use haos_aqara.Ltmk.{strip, parse_ltmk}
use haos_aqara.Config.Data.{Mode, local, cloud, cloud_cutter, ConfigData, UserInput, entry_data}
use haos_aqara.Config.Cloud.{Cloud}
use haos_aqara.Config.Schema.{address_field, cloud_schema, local_schema}
use haos_aqara.Config.Flow.{Flow, FlowHost, manual, claim, non_empty}
use haos_aqara.Config.Steps.{lookup, address_of, async_cloud_step}
use haos_aqara.Config.Local.{async_step_local, finish_local}
use haos_aqara.Config.Answers.{
  field, IsFilled, schema_of, setup_step, IsSteady, Returns, Returns-bind, when-Returns,
  cloud_step_at-Returns, claim-Returns,
}

stripped_some :
    (value : Option Text) → is_some value ≡ true → (text : Text) × (map strip value ≡ some text)
stripped_some none h = cc
stripped_some (some text) h = (strip text, refl)

filled-address :
    (mode : Mode) (user_input : UserInput)
    → IsFilled (schema_of mode true) user_input
    → is_some user_input.address ≡ true
unfolding schema_of cloud_schema local_schema address_field IsFilled field
filled-address cloud user_input h = h.0
filled-address local user_input h = h.0
filled-address cloud_cutter user_input h = h.0

filled-local :
    (by_hand : Bool) (user_input : UserInput)
    → IsFilled (local_schema by_hand) user_input
    → (is_some user_input.device_id ≡ true) × (is_some user_input.ltmk ≡ true)
unfolding local_schema address_field IsFilled field
filled-local true user_input h = (h.1.0, h.1.1.0)
filled-local false user_input h = (h.0, h.1.0)

module _ {E : Type 0} (self : Flow) (config : ConfigData) where
  typed_address :
      (address : Text) (e : E)
      → self.discovered_address ≡ none
      → config.address ≡ some address
      → (address_of self config e).0 ≡ ok address
  unfolding address_of non_empty lookup
  typed_address address e d a = rw (d, a)

  discovered_address :
      (address : Text) (e : E)
      → self.discovered_address ≡ some address
      → address ≢ []
      → Returns (address_of self config) e
  unfolding address_of non_empty
  discovered_address [] e d h = elim (h refl) [ ]
  discovered_address (c ∷ s) e d h = (c ∷ s, rw d)

  address_of-Returns :
      (e : E)
      → self.discovered_address ≢ some []
      → (manual self ≡ true → (address : Text) × (config.address ≡ some address))
      → Returns (address_of self config) e
  unfolding manual
  address_of-Returns e named typed = elim (Option-cases self.discovered_address) [
    | inl d ↦ let given = typed (rw d) in (given.0, typed_address given.0 e d given.1)
    | inr (address, d) ↦ discovered_address address e d (λ empty. named (d ∙ ap some empty))
  ]

module _ {A E : Type 0} (lib : Cloud A E) (ha : FlowHost E) (steady : IsSteady lib ha) where
  filled_address :
      (mode : Mode) (self : Flow) (user_input : UserInput)
      → IsFilled (schema_of mode (manual self)) user_input
      → manual self ≡ true
      → (address : Text) × ((entry_data user_input).address ≡ some address)
  unfolding entry_data
  filled_address mode self user_input filled by_hand = stripped_some user_input.address (
      filled-address mode user_input
        (subst (λ b. IsFilled (schema_of mode b) user_input) by_hand filled))

  lookup-Returns :
      (value : Option Text) (e : E) → (text : Text) × (value ≡ some text) → Returns (lookup value) e
  unfolding lookup
  lookup-Returns none e (text, h) = cc
  lookup-Returns (some text) e h = (text, refl)

  finish_local-Returns :
      (self : Flow) (user_input : UserInput) (config : ConfigData) (address : Text)
      (key : Option (List ℕ)) (e : E)
      → (device_id : Text) × (config.device_id ≡ some device_id)
      → Returns (finish_local ha self user_input config address key) e
  unfolding finish_local
  finish_local-Returns self user_input config address none e h = (_, refl)
  finish_local-Returns self user_input config address (some key) e h =
      Returns-bind (when (manual self) (claim ha address)) _ e
        (when-Returns (manual self) (claim ha address) e (claim-Returns lib ha steady address e))
        λ _ e'.
          Returns-bind (lookup config.device_id) _ e' (lookup-Returns config.device_id e' h)
            (λ device_id e''. (_, refl))

  local-Returns :
      (self : Flow) (user_input : UserInput) (e : E)
      → self.discovered_address ≢ some []
      → IsFilled (schema_of local (manual self)) user_input
      → Returns (async_step_local ha self (some user_input)) e
  unfolding async_step_local schema_of entry_data
  local-Returns self user_input e named filled =
      let fields = filled-local (manual self) user_input filled in
      Returns-bind (address_of self (entry_data user_input)) _ e
        (address_of-Returns self (entry_data user_input) e named
          (filled_address local self user_input filled))
        λ address e'.
          Returns-bind (lookup (entry_data user_input).ltmk) _ e'
            (lookup-Returns _ e' (stripped_some user_input.ltmk fields.1))
            λ ltmk e''.
              finish_local-Returns self user_input (entry_data user_input) address (parse_ltmk ltmk)
                e'' (stripped_some user_input.device_id fields.0)

  cloud-Returns :
      (mode : Mode) (self : Flow) (user_input : UserInput) (e : E)
      → self.discovered_address ≢ some []
      → IsFilled (schema_of mode (manual self)) user_input
      → Returns (async_cloud_step lib ha mode self (some user_input)) e
  unfolding async_cloud_step
  cloud-Returns mode self user_input e named filled =
      Returns-bind (address_of self (entry_data user_input)) _ e
        (address_of-Returns self (entry_data user_input) e named
          (filled_address mode self user_input filled))
        λ address e'.
          Returns-bind (when (manual self) (claim ha address)) _ e'
            (when-Returns (manual self) (claim ha address) e'
              (claim-Returns lib ha steady address e'))
            (λ _ e''. cloud_step_at-Returns lib ha steady mode self user_input _ address e'')

  -- Each of the three ways to set up comes back with a result on a form with all its required fields,
  -- and raises nothing, where a discovered address is not empty, Home Assistant takes the unique id
  -- and the calls of the cloud, however else they end, are not cancelled.
  pub setup_step-Returns :
      (mode : Mode) (self : Flow) (user_input : UserInput) (e : E)
      → self.discovered_address ≢ some []
      → IsFilled (schema_of mode (manual self)) user_input
      → Returns (setup_step lib ha mode self user_input) e
  unfolding setup_step
  setup_step-Returns local self user_input e named filled =
      local-Returns self user_input e named filled
  setup_step-Returns cloud self user_input e named filled =
      cloud-Returns cloud self user_input e named filled
  setup_step-Returns cloud_cutter self user_input e named filled =
      cloud-Returns cloud_cutter self user_input e named filled
