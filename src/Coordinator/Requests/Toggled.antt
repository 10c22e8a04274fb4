-- ===== src/Coordinator/Requests/Toggled.antt =====
-- What a change of one auxiliary toggle (`_async_set_auxiliary_toggle` of
-- custom_components/aqara_u200/coordinator.py) leaves of the four, on a lock that keeps what is written.
use haos_aqara.Base.{◌≡◌, refl, sym, ap, ◌∙◌, if◌then◌else◌, Bool, none, some}
use haos_aqara.Errors.{ok}
use haos_aqara.Boundary.{Context}
use haos_aqara.Settings.Data.{
  Toggle, touch_to_lock, close_to_lock, resume_lock, any_unlock_lock, Mask, ReadName,
}
use haos_aqara.Coordinator.State.{World, Operation}
use haos_aqara.Coordinator.Callbacks.{await}
use haos_aqara.Coordinator.Callbacks.Frame.{env-await, result-await}
use haos_aqara.Coordinator.Read.{read_one}
use haos_aqara.Coordinator.Read.Applied.{stored}
use haos_aqara.Coordinator.Operation.{run_set_operation}
use haos_aqara.Coordinator.Operation.Reread.{Reread, reported, run_set_operation-Reread}
use haos_aqara.Coordinator.Requests.{Toggles, written_mask, set_auxiliary_toggle}
use haos_aqara.Coordinator.Requests.Masks.{same, toggle_of, known_on, written_mask-toggle_of}

-- The mask as a lock reports it, with an entry for each toggle.
abbrev pub full : (touch close resume any : Bool) → Mask
full touch close resume any = record {
  touch_to_lock = some touch;
  close_to_lock = some close;
  resume_lock = some resume;
  any_unlock_lock = some any;
}

-- A lock that reports, right after a mask was written to it, this mask.
pub record KeepsMask {E : Type 0} (cx : Context E) : Type 0 where
  pub reports :
      (touch close resume any : Bool) (e : E)
      → (cx.client.async_set_auxiliary_locking touch close resume any e).0 ≡ ok tt
      → (cx.client.async_read_auxiliary_locking
          (cx.client.async_set_auxiliary_locking touch close resume any e).2).0
        ≡ ok (some (full touch close resume any))

known_on-full :
    (other : Toggle) (mask : Toggles)
    → known_on other
        (some (full mask.touch_to_lock mask.close_to_lock mask.resume_lock mask.any_unlock_lock))
      ≡ toggle_of other mask
known_on-full touch_to_lock mask = refl
known_on-full close_to_lock mask = refl
known_on-full resume_lock mask = refl
known_on-full any_unlock_lock mask = refl

same_value : {A : Type 0} (x y : A) → ok x ≡ ok y → x ≡ y
same_value x y h = cc

module _ {E : Type 0} (cx : Context E) (lock : KeepsMask cx) where
  Reread-full :
      (op : Operation) (t c r a : Bool) (w w' : World E)
      → Reread cx op (cx.client.async_set_auxiliary_locking t c r a) ReadName.auxiliary_locking w w'
      → w'.self.settings.auxiliary_locking ≡ some (full t c r a)
  unfolding read_one stored
  Reread-full op t c r a w w' h =
      let write = cx.client.async_set_auxiliary_locking t c r a in
      let read = cx.client.async_read_auxiliary_locking in
      let after = (await cx write h.at).1 in
      let answered : (write h.at.env).0 ≡ ok tt = sym (result-await cx write h.at) ∙ h.answered in
      let told : (read after.env).0 ≡ ok (some (full t c r a)) =
        ap (λ e. (read e).0) (env-await cx write h.at) ∙ lock.reports t c r a h.at.env answered in
      let value : h.value ≡ some (full t c r a) =
        same_value h.value (some (full t c r a))
          (sym h.reread ∙ result-await cx read after ∙ told) in
      ap (λ self. self.settings.auxiliary_locking) h.state
      ∙ ap
          (λ v.
            (reported ReadName.auxiliary_locking v
              (await cx read after).1.self).settings.auxiliary_locking)
          value

  -- On a lock that reports what was written to it: if the change of an auxiliary toggle succeeds, the
  -- coordinator knows this toggle as asked for and every other toggle as it knew it before, where a
  -- toggle of which nothing was read counts as off.
  pub set_auxiliary_toggle-known_on :
      (toggle other : Toggle) (enabled : Bool) (w : World E)
      → (set_auxiliary_toggle cx toggle enabled w).0 ≡ ok tt
      → known_on other (set_auxiliary_toggle cx toggle enabled w).1.self.settings.auxiliary_locking
        ≡ (if same toggle other then enabled else known_on other w.self.settings.auxiliary_locking)
  unfolding set_auxiliary_toggle
  set_auxiliary_toggle-known_on toggle other enabled w h =
      let mask = written_mask toggle enabled w.self in
      let op = Operation.set_auxiliary toggle in
      let action =
        cx.client.async_set_auxiliary_locking mask.touch_to_lock mask.close_to_lock mask.resume_lock
          mask.any_unlock_lock in
      let reread = run_set_operation-Reread cx op action none ReadName.auxiliary_locking w h in
      let end = (run_set_operation cx op action none (some ReadName.auxiliary_locking) w).1 in
      ap (known_on other) (
        Reread-full op mask.touch_to_lock mask.close_to_lock mask.resume_lock mask.any_unlock_lock w
          end reread)
      ∙ known_on-full other mask
      ∙ written_mask-toggle_of toggle other enabled w.self
