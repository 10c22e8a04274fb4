-- ===== src/Entities/Switch.antt =====
-- custom_components/aqara_u200/switch.py
use haos_aqara.Base.{Bool, true, false, Option, none, some}
use haos_aqara.Exec.{Exec}
use haos_aqara.Boundary.{Context}
use haos_aqara.Settings.Data.{Mask}
use haos_aqara.Coordinator.State.{World, RuntimeSnapshot}
use haos_aqara.Coordinator.Requests.{
  async_set_assist_turn, async_set_auxiliary_close_to_lock, async_set_auxiliary_resume_lock,
}
use haos_aqara.Entities.Surface.{surfaced}

-- The entities that `async_setup_entry` adds, by their keys.
pub data Switch : Type 0 where
  assist_turn auxiliary_close_to_lock auxiliary_resume_lock : Switch

-- A key of the mask, or nothing until the mask is read.
unfoldable pub of_mask : (Mask → Option Bool) → Option Mask → Option Bool
of_mask key none = none
of_mask key (some mask) = key mask

-- `_close_to_lock`
unfoldable pub close_to_lock : RuntimeSnapshot → Option Bool
unfolding of_mask
close_to_lock snapshot = of_mask (λ mask. mask.close_to_lock) snapshot.auxiliary_locking

-- `_resume_lock`
unfoldable pub resume_lock : RuntimeSnapshot → Option Bool
unfolding of_mask
resume_lock snapshot = of_mask (λ mask. mask.resume_lock) snapshot.auxiliary_locking

unfoldable pub is_on : Switch → RuntimeSnapshot → Option Bool
unfolding close_to_lock resume_lock
is_on assist_turn snapshot = snapshot.assist_turn
is_on auxiliary_close_to_lock snapshot = close_to_lock snapshot
is_on auxiliary_resume_lock snapshot = resume_lock snapshot

module _ {E : Type 0} (cx : Context E) where
  unfoldable pub setter : Switch → Bool → Exec (World E) Unit
  setter assist_turn enabled = async_set_assist_turn cx enabled
  setter auxiliary_close_to_lock enabled = async_set_auxiliary_close_to_lock cx enabled
  setter auxiliary_resume_lock enabled = async_set_auxiliary_resume_lock cx enabled

  -- `_async_set`
  unfoldable pub async_set : Switch → Bool → Exec (World E) Unit
  unfolding setter surfaced
  async_set switch enabled = surfaced (setter switch enabled)

  unfoldable pub async_turn_on : Switch → Exec (World E) Unit
  unfolding async_set
  async_turn_on switch = async_set switch true

  unfoldable pub async_turn_off : Switch → Exec (World E) Unit
  unfolding async_set
  async_turn_off switch = async_set switch false
