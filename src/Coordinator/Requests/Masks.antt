-- ===== src/Coordinator/Requests/Masks.antt =====
-- The mask that a change of one auxiliary toggle writes.
use haos_aqara.Base.{◌≡◌, refl, ap, ◌∙◌, if◌then◌else◌, Bool, true, false, Option, none, some}
use haos_aqara.Settings.Data.{
  Toggle, touch_to_lock, close_to_lock, resume_lock, any_unlock_lock, Mask,
}
use haos_aqara.Coordinator.State.{Coordinator}
use haos_aqara.Coordinator.Requests.{Toggles, set_toggle, written_mask, cached_mask, bit}

abbrev pub toggle_of : Toggle → Toggles → Bool
toggle_of touch_to_lock mask = mask.touch_to_lock
toggle_of close_to_lock mask = mask.close_to_lock
toggle_of resume_lock mask = mask.resume_lock
toggle_of any_unlock_lock mask = mask.any_unlock_lock

-- The entry of a toggle in a mask that was read.
abbrev pub entry_of : Toggle → Mask → Option Bool
entry_of touch_to_lock mask = mask.touch_to_lock
entry_of close_to_lock mask = mask.close_to_lock
entry_of resume_lock mask = mask.resume_lock
entry_of any_unlock_lock mask = mask.any_unlock_lock

-- Whether a toggle is known to be on: it is not where no mask was read or the mask has no entry for it.
abbrev pub known_on : Toggle → Option Mask → Bool
known_on toggle none = false
known_on toggle (some mask) = elim (entry_of toggle mask) [ none ↦ false | some on ↦ on ]

pub same : Toggle → Toggle → Bool
same touch_to_lock touch_to_lock = true
same close_to_lock close_to_lock = true
same resume_lock resume_lock = true
same any_unlock_lock any_unlock_lock = true
same _ _ = false

set_toggle-toggle_of :
    (toggle other : Toggle) (enabled : Bool) (mask : Toggles)
    → toggle_of other (set_toggle toggle enabled mask)
      ≡ (if same toggle other then enabled else toggle_of other mask)
unfolding set_toggle same
set_toggle-toggle_of touch_to_lock touch_to_lock enabled mask = refl
set_toggle-toggle_of touch_to_lock close_to_lock enabled mask = refl
set_toggle-toggle_of touch_to_lock resume_lock enabled mask = refl
set_toggle-toggle_of touch_to_lock any_unlock_lock enabled mask = refl
set_toggle-toggle_of close_to_lock touch_to_lock enabled mask = refl
set_toggle-toggle_of close_to_lock close_to_lock enabled mask = refl
set_toggle-toggle_of close_to_lock resume_lock enabled mask = refl
set_toggle-toggle_of close_to_lock any_unlock_lock enabled mask = refl
set_toggle-toggle_of resume_lock touch_to_lock enabled mask = refl
set_toggle-toggle_of resume_lock close_to_lock enabled mask = refl
set_toggle-toggle_of resume_lock resume_lock enabled mask = refl
set_toggle-toggle_of resume_lock any_unlock_lock enabled mask = refl
set_toggle-toggle_of any_unlock_lock touch_to_lock enabled mask = refl
set_toggle-toggle_of any_unlock_lock close_to_lock enabled mask = refl
set_toggle-toggle_of any_unlock_lock resume_lock enabled mask = refl
set_toggle-toggle_of any_unlock_lock any_unlock_lock enabled mask = refl

bit-default : (on : Option Bool) → bit on ≡ elim on [ none ↦ false | some b ↦ b ]
unfolding bit
bit-default none = refl
bit-default (some on) = refl

cached_mask-known_on :
    (other : Toggle) (cached : Option Mask)
    → toggle_of other (cached_mask cached) ≡ known_on other cached
unfolding cached_mask
cached_mask-known_on touch_to_lock none = refl
cached_mask-known_on close_to_lock none = refl
cached_mask-known_on resume_lock none = refl
cached_mask-known_on any_unlock_lock none = refl
cached_mask-known_on touch_to_lock (some mask) = bit-default mask.touch_to_lock
cached_mask-known_on close_to_lock (some mask) = bit-default mask.close_to_lock
cached_mask-known_on resume_lock (some mask) = bit-default mask.resume_lock
cached_mask-known_on any_unlock_lock (some mask) = bit-default mask.any_unlock_lock

-- The mask that is written to change one auxiliary toggle has this toggle as asked, and every other
-- as the last mask that was read has it, or off where none was read or the mask has no entry for it.
pub written_mask-toggle_of :
    (toggle other : Toggle) (enabled : Bool) (self : Coordinator)
    → toggle_of other (written_mask toggle enabled self)
      ≡ (if same toggle other then enabled else known_on other self.settings.auxiliary_locking)
unfolding written_mask
written_mask-toggle_of toggle other enabled self =
    set_toggle-toggle_of toggle other enabled (cached_mask self.settings.auxiliary_locking)
    ∙ ap (λ on. if same toggle other then enabled else on)
        (cached_mask-known_on other self.settings.auxiliary_locking)
