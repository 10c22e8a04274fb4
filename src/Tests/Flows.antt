-- ===== src/Tests/Flows.antt =====
-- The theorems on the config flow, at a cloud that accepts everything and a user who fills in the forms.
use haos_aqara.Base.{ℕ, ◌≡◌, ◌≢◌, ◌↔◌, refl, subst, true, some, none, [], List, Text, codes}
use haos_aqara.Errors.{ok}
use haos_aqara.Ltmk.{hex, parse_ltmk, strip, from_place, digit_value}
use haos_aqara.Config.Data.{
  or_stored, local, cloud_cutter, ConfigData, EntryOptions, UserInput, entry_data,
}
use haos_aqara.Config.Cloud.{
  Cloud, async_validate_cloud_auth, async_resolve_device_id, async_fetch_ltmk, build_cloud_auth,
}
use haos_aqara.Config.Flow.{FlowHost, manual, new_flow, create_entry, update_reload_and_abort}
use haos_aqara.Config.Steps.{async_cloud_step}
use haos_aqara.Config.Local.{async_step_local, merge, async_step_reauth_confirm}
use haos_aqara.Config.Created.{IsLocal, async_step_local-IsLocal}
use haos_aqara.Config.Validated.{IsAccepted, async_cloud_step-IsAccepted}
use haos_aqara.Config.Reauth.{async_step_reauth_confirm_iff}
use haos_aqara.Config.Schema.{auth_schema, address_field, cloud_schema}
use haos_aqara.Config.Answers.{
  field, IsFilled, schema_of, setup_step, IsUncancelled, IsSteady, Returns,
}
use haos_aqara.Config.Answers.Filled.{setup_step-Returns}
use haos_aqara.Tests.Keys.{key, key-IsByte}
use haos_aqara.Ltmk.Keys.{IsKey}
use haos_aqara.Setup.Accepted.{SetsUp, async_cloud_step-SetsUp}

abbrev pub accepting : Cloud ℕ ℕ
accepting = record {
  cloud_auth_manager = λ account password region e. (ok 7, e);
  build_signer = λ auth e. (ok tt, e);
  resolve_device_id = λ auth mac e. (ok (codes "matt.2"), e);
  fetch_ltmk = λ auth device_id e. (ok key, e);
}

abbrev home : FlowHost ℕ
home = record {
  async_set_unique_id = λ address e. (ok tt, e);
  abort_if_unique_id_configured = λ updated e. (ok tt, e);
}

abbrev pasted : UserInput
pasted = record {
  address = some (codes "AA:BB ");
  region = none;
  account = none;
  password = none;
  device_id = some (codes "matt.1");
  ltmk = some (hex key);
  realtime_state = some true;
}

abbrev pub local_data : ConfigData
local_data = record {
  address = some (codes "AA:BB");
  region = none;
  account = none;
  password = none;
  device_id = some (codes "matt.1");
  ltmk = some (hex key);
  setup_mode = some local;
}

abbrev pub offline_options : EntryOptions
offline_options = record {
  realtime_state = some true;
  poll_hours = none;
  offline_mode = some true;
  keypad_wake_switch = none;
}

pasted-creates :
    (async_step_local home new_flow (some pasted) 0).0
    ≡ ok (create_entry (codes "Aqara U200 AA:BB") local_data offline_options)
unfolding async_step_local entry_data from_place hex digit_value
pasted-creates = refl

async_step_local-IsLocal_example :
    (typed : Text) × (read : List ℕ) × (pasted.ltmk ≡ some typed)
    × (parse_ltmk (strip typed) ≡ some read)
    × IsLocal accepting 0 read local_data offline_options
async_step_local-IsLocal_example =
    async_step_local-IsLocal accepting 0 home new_flow pasted 0 (codes "Aqara U200 AA:BB")
      local_data offline_options pasted-creates

abbrev signed_in : UserInput
signed_in = record {
  address = some (codes "AA:BB");
  region = some (codes "US");
  account = some (codes " me@home ");
  password = some (codes " secret ");
  device_id = none;
  ltmk = none;
  realtime_state = some true;
}

abbrev pub cutter_data : ConfigData
cutter_data = record {
  address = some (codes "AA:BB");
  region = some (codes "US");
  account = some (codes "me@home");
  password = some (codes " secret ");
  device_id = some (codes "matt.2");
  ltmk = some (hex key);
  setup_mode = some cloud_cutter;
}

signed_in-creates :
    (async_cloud_step accepting home cloud_cutter new_flow (some signed_in) 0).0
    ≡ ok (create_entry (codes "Aqara U200 AA:BB") cutter_data offline_options)
unfolding async_cloud_step entry_data async_validate_cloud_auth async_resolve_device_id
    async_fetch_ltmk
signed_in-creates = refl

async_cloud_step-IsAccepted_example : IsAccepted accepting cloud_cutter cutter_data offline_options
async_cloud_step-IsAccepted_example =
    async_cloud_step-IsAccepted accepting home cloud_cutter new_flow signed_in 0 refl
      (codes "Aqara U200 AA:BB") cutter_data offline_options signed_in-creates

abbrev renewed : UserInput
renewed = record {
  address = none;
  region = none;
  account = some (codes "me@home");
  password = some (codes "other");
  device_id = none;
  ltmk = none;
  realtime_state = none;
}

async_step_reauth_confirm_iff_example :
    (((async_step_reauth_confirm accepting cutter_data (some renewed) 0).0
        ≡ ok (update_reload_and_abort (entry_data renewed)))
      ↔ ((async_validate_cloud_auth accepting (merge cutter_data (entry_data renewed)) 0).0
          ≡ ok tt))
    × (merge cutter_data (entry_data renewed) ≡ record cutter_data {
      account = or_stored (entry_data renewed).account cutter_data.account;
      password = or_stored renewed.password cutter_data.password;
    })
async_step_reauth_confirm_iff_example =
    async_step_reauth_confirm_iff accepting cutter_data renewed 0 refl refl refl refl

accepting-IsSteady : IsSteady accepting home
unfolding IsUncancelled
accepting-IsSteady = record {
  manager = λ account password region e. tt;
  signer = λ auth e. tt;
  resolved = λ auth mac e. tt;
  fetched = λ auth device_id e. tt;
  id_set = λ address e. refl;
  id_free = λ updated e. refl;
}

signed_in-IsFilled : IsFilled (schema_of cloud_cutter (manual new_flow)) signed_in
unfolding IsFilled schema_of cloud_schema address_field auth_schema manual field
signed_in-IsFilled =
    let password : (true ≡ true) × Unit {0} = (refl, tt) in
    let credentials : (true ≡ true) × ((true ≡ true) × Unit {0}) = (refl, password) in
    (refl, credentials)

not_discovered : new_flow.discovered_address ≢ some []
not_discovered h = cc h

setup_step-Returns_example : Returns (setup_step accepting home cloud_cutter new_flow signed_in) 0
setup_step-Returns_example =
    setup_step-Returns accepting home accepting-IsSteady cloud_cutter new_flow signed_in 0
      not_discovered signed_in-IsFilled

handed_out :
    (auth : ℕ) (device_id : Text) (e : ℕ) (read : List ℕ)
    → (accepting.fetch_ltmk auth device_id e).0 ≡ ok read
    → IsKey read
handed_out auth device_id e read h =
    let same : key ≡ read = cc in subst IsKey same (refl, key-IsByte)

async_cloud_step-SetsUp_example : SetsUp accepting cloud_cutter cutter_data 7 0 0
unfolding build_cloud_auth
async_cloud_step-SetsUp_example =
    async_cloud_step-SetsUp accepting handed_out home cloud_cutter new_flow signed_in 0 refl
      (codes "Aqara U200 AA:BB") cutter_data offline_options signed_in-creates 7 0 0 refl
