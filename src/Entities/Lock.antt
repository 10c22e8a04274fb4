-- ===== src/Entities/Lock.antt =====
-- custom_components/aqara_u200/lock.py
use haos_aqara.Base.{ℕ, Bool, true, false, ◌&&◌, Option, String, List, [], ◌∷◌}
use haos_aqara.Exec.{Exec}
use haos_aqara.Boundary.{EnrolKind, finger, nfc, finger_admin, nfc_admin, Context}
use haos_aqara.Coordinator.State.{World, RuntimeSnapshot}
use haos_aqara.Coordinator.Requests as Requests
use haos_aqara.Entities.Surface.{surfaced}

-- The services of the platform.
pub data Service : Type 0 where
  add_visitor_password delete_user enrol_credential : Service

-- What the fields of the services take, and whether a field has to be there; `kind` and `group_id`
-- have a default.
pub data Takes : Type 0 where
  digits : (at_least : ℕ) → Takes
  range : (least greatest : ℕ) → Takes
  one_of : List EnrolKind → Takes

-- The schemas of `async_setup_entry`: the name, the validator and whether the field is required.
unfoldable pub service_schema : Service → List (String × Takes × Bool)
service_schema add_visitor_password =
    ("pin", digits 4, true) ∷ ("group_id", range 0 255, false) ∷ []
service_schema delete_user = ("user_id", range 0 0xffffffff, true) ∷ []
service_schema enrol_credential =
    ("user_group_id", range 0 255, true)
    ∷ ("kind", one_of (finger ∷ nfc ∷ finger_admin ∷ nfc_admin ∷ []), false)
    ∷ []

-- `available`: the coordinator always has published a snapshot, and `last_update_success` is what Home
-- Assistant's `CoordinatorEntity` answers.
unfoldable pub available : (last_update_success : Bool) → RuntimeSnapshot → Bool
available last_update_success snapshot =
    last_update_success && (snapshot.reachable && snapshot.control_enabled)

unfoldable pub is_locked : RuntimeSnapshot → Option Bool
is_locked snapshot = snapshot.is_locked

module _ {E : Type 0} (cx : Context E) where
  unfoldable pub async_lock : Exec (World E) Unit
  unfolding surfaced
  async_lock = surfaced (Requests.async_lock cx)

  unfoldable pub async_unlock : Exec (World E) Unit
  unfolding surfaced
  async_unlock = surfaced (Requests.async_unlock cx)

  unfoldable pub async_add_visitor_password : String → ℕ → Exec (World E) Unit
  unfolding surfaced
  async_add_visitor_password pin group_id =
      surfaced (Requests.async_add_visitor_password cx pin group_id)

  unfoldable pub async_delete_user : ℕ → Exec (World E) Unit
  unfolding surfaced
  async_delete_user user_id = surfaced (Requests.async_delete_user cx user_id)

  unfoldable pub async_enrol_credential : ℕ → EnrolKind → Exec (World E) Unit
  unfolding surfaced
  async_enrol_credential user_group_id kind =
      surfaced (Requests.async_enrol_credential cx user_group_id kind)
