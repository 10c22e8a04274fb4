-- ===== src/Config/Flow.antt =====
-- `AqaraU200ConfigFlow` of custom_components/aqara_u200/config_flow.py: a step as a coroutine over
-- the state of everything behind the cloud and Home Assistant.
use haos_aqara.Base.{
  Bool, Option, none, some, is_none, String, List, [], ◌∷◌, Text, codes, if◌then◌else◌,
}
use haos_aqara.Exec.{Exec, pure, ◌>>◌}
use haos_aqara.Config.Data.{Mode, cloud, local, cloud_cutter, ConfigData, EntryOptions}
use haos_aqara.Config.Schema.{Schema}

pub data Step : Type 0 where
  confirm user reauth_confirm : Step
  setup : Mode → Step

-- The keys of `errors`: the form, or its field for the LTMK.
pub data ErrorField : Type 0 where
  base ltmk_field : ErrorField

pub data FlowError : Type 0 where
  invalid_auth cannot_connect no_device ltmk_fetch invalid_ltmk : FlowError

-- `ConfigFlowResult`. `name` is the placeholder of the description, where the step gives one, and
-- `suggested_account` the value that the form of the reauthentication starts with.
pub data FlowResult : Type 0 where
  show_form :
      Step
      → Schema
      → List (ErrorField × FlowError)
      → (name : Option Text) (suggested_account : Option Text) → FlowResult
  show_menu : Step → List Mode → (name : Option Text) → FlowResult
  create_entry : (title : Text) → ConfigData → EntryOptions → FlowResult
  update_reload_and_abort : (data_updates : ConfigData) → FlowResult
  abort : (reason : String) → FlowResult

-- The fields of the flow, with `context["title_placeholders"]["name"]`.
pub record Flow : Type 0 where
  pub discovered_address : Option Text
  pub discovered_name : Text
  pub title_placeholder : Option Text

-- `__init__`
abbrev pub new_flow : Flow
new_flow = record {
  discovered_address = none;
  discovered_name = codes "Aqara U200";
  title_placeholder = none;
}

-- What the flow calls of Home Assistant. Either may end the flow with `AbortFlow`.
pub record FlowHost (E : Type 0) : Type 0 where
  pub async_set_unique_id : Text → Exec E (Unit {0})
  pub abort_if_unique_id_configured : (updated_address : Option Text) → Exec E (Unit {0})

-- `BluetoothServiceInfoBleak`, as far as the flow reads it.
pub record DiscoveryInfo : Type 0 where
  pub address : Text
  pub name : Text

-- `_MENU_OPTIONS`
abbrev pub menu_options : List Mode
menu_options = cloud ∷ local ∷ cloud_cutter ∷ []

-- `a or b` of two texts
unfoldable pub or_else : Text → Text → Text
or_else [] b = b
or_else (c ∷ a) b = c ∷ a

-- `text or None`
unfoldable pub non_empty : Option Text → Option Text
non_empty (some (c ∷ s)) = some (c ∷ s)
non_empty _ = none

unfoldable pub manual : Flow → Bool
manual self = is_none self.discovered_address

unfoldable pub async_step_confirm : Flow → FlowResult
async_step_confirm self =
    if is_none self.discovered_address
    then abort "discovery_info_missing"
    else show_menu confirm menu_options (some self.discovered_name)

unfoldable pub async_step_user : FlowResult
async_step_user = show_menu user menu_options none

module _ {E : Type 0} (ha : FlowHost E) where
  unfoldable pub async_step_bluetooth : Flow → DiscoveryInfo → Exec E (Flow × FlowResult)
  unfolding or_else async_step_confirm
  async_step_bluetooth self info = do
    ha.async_set_unique_id info.address
    ha.abort_if_unique_id_configured (some info.address)
    let name = or_else info.name (codes "Aqara U200")
    let self' : Flow = record {
      discovered_address = some info.address;
      discovered_name = name;
      title_placeholder = some name;
    }
    pure (self', async_step_confirm self')

  -- `await self.async_set_unique_id(address)` and the test that follows
  unfoldable pub claim : Text → Exec E (Unit {0})
  claim address = do ha.async_set_unique_id address; ha.abort_if_unique_id_configured none
