-- ===== src/Entities/Button.antt =====
-- custom_components/aqara_u200/button.py
use haos_aqara.Exec.{Exec, modify}
use haos_aqara.Boundary.{Context}
use haos_aqara.Coordinator.State.{World, Task, task_created}
use haos_aqara.Coordinator.Callbacks.{emit}
use haos_aqara.Coordinator.Requests.{
  async_enable_auxiliary_locking_on_close, async_enable_auxiliary_locking_relock,
}
use haos_aqara.Entities.Surface.{surfaced}

-- The entities that `async_setup_entry` adds: `AqaraU200Refresh`, and `AqaraU200EnableAction` by its keys.
pub data Button : Type 0 where
  refresh enable_auxiliary_locking_on_close enable_auxiliary_locking_relock : Button

-- `AqaraU200Refresh.async_press`: the refresh runs in a task in the background.
unfoldable pub press_refresh : {E : Type 0} → Exec (World E) Unit
press_refresh = modify (emit (task_created Task.refresh_button))

module _ {E : Type 0} (cx : Context E) where
  -- `async_press`
  unfoldable pub async_press : Button → Exec (World E) Unit
  unfolding surfaced press_refresh
  async_press refresh = press_refresh
  async_press enable_auxiliary_locking_on_close =
      surfaced (async_enable_auxiliary_locking_on_close cx)
  async_press enable_auxiliary_locking_relock = surfaced (async_enable_auxiliary_locking_relock cx)
