-- ===== src/Setup/Registered.antt =====
-- That each part of the set-up in custom_components/aqara_u200/__init__.py registers what it acquires.
use haos_aqara.Base.{◌≡◌, refl, sym, ◌∙◌, Bool, true, false, ◌∷◌, arith}
use mathlib.Core.List.{Memᴰ}
use haos_aqara.Exec.Keeps.{Keeps}
use haos_aqara.Coordinator.State.{World}
use haos_aqara.Coordinator.Refresh.{async_start_realtime, async_start_battery}
use haos_aqara.Setup.{
  UnloadCallback, stop_realtime, stop_battery, Running, start_bluetooth, set_up_realtime,
  set_up_battery, listen_for_updates, register,
}
use haos_aqara.Setup.Unload.Stops.{
  Resource, discovery, unavailable, updates, realtime, battery, released_by, holds, IsReleasable,
}

module _ {E : Type 0} where
  start_realtime-battery_task :
      (w : World E) → (async_start_realtime w).self.battery_task ≡ w.self.battery_task
  unfolding async_start_realtime
  start_realtime-battery_task w = ground arith

  start_battery-realtime_task :
      (w : World E) → (async_start_battery w).self.realtime_task ≡ w.self.realtime_task
  unfolding async_start_battery
  start_battery-realtime_task w = ground arith

  register-IsReleasable :
      (c : UnloadCallback) (r : Running E) → IsReleasable r → IsReleasable (register c r)
  register-IsReleasable c r h = record { registered = registered_of }
    where
      registered_of :
          (x : Resource) → holds x (register c r) ≡ true → Memᴰ (released_by x) (c ∷ r.on_unload)
      registered_of discovery held = Memᴰ.tail (h.registered discovery held)
      registered_of unavailable held = Memᴰ.tail (h.registered unavailable held)
      registered_of updates held = Memᴰ.tail (h.registered updates held)
      registered_of realtime held = Memᴰ.tail (h.registered realtime held)
      registered_of battery held = Memᴰ.tail (h.registered battery held)

  pub start_bluetooth-IsReleasable :
      (r : Running E) → IsReleasable r → IsReleasable (start_bluetooth r)
  unfolding start_bluetooth
  start_bluetooth-IsReleasable r h = record { registered = registered_of }
    where
      registered_of :
          (x : Resource)
          → holds x (start_bluetooth r) ≡ true
          → Memᴰ (released_by x) (start_bluetooth r).on_unload
      registered_of discovery held = Memᴰ.head refl
      registered_of unavailable held = Memᴰ.head refl
      registered_of updates held = Memᴰ.tail (h.registered updates held)
      registered_of realtime held = Memᴰ.tail (h.registered realtime held)
      registered_of battery held = Memᴰ.tail (h.registered battery held)

  pub listen_for_updates-IsReleasable :
      (r : Running E) → IsReleasable r → IsReleasable (listen_for_updates r)
  unfolding listen_for_updates
  listen_for_updates-IsReleasable r h = record { registered = registered_of }
    where
      registered_of :
          (x : Resource)
          → holds x (listen_for_updates r) ≡ true
          → Memᴰ (released_by x) (listen_for_updates r).on_unload
      registered_of discovery held = Memᴰ.tail (h.registered discovery held)
      registered_of unavailable held = Memᴰ.tail (h.registered unavailable held)
      registered_of updates held = Memᴰ.head refl
      registered_of realtime held = Memᴰ.tail (h.registered realtime held)
      registered_of battery held = Memᴰ.tail (h.registered battery held)

  -- The worlds of the two have the same tasks.
  pub same_tasks-IsReleasable :
      (r : Running E) (w : World E)
      → w.self.realtime_task ≡ r.world.self.realtime_task
      → w.self.battery_task ≡ r.world.self.battery_task
      → IsReleasable r
      → IsReleasable (record r { world = w })
  same_tasks-IsReleasable r w p q h = record { registered = registered_of }
    where
      registered_of :
          (x : Resource)
          → holds x (record r { world = w }) ≡ true
          → Memᴰ (released_by x) r.on_unload
      registered_of discovery held = h.registered discovery held
      registered_of unavailable held = h.registered unavailable held
      registered_of updates held = h.registered updates held
      registered_of realtime held = h.registered realtime (sym p ∙ held)
      registered_of battery held = h.registered battery (sym q ∙ held)

  realtime_started :
      (r : Running E) (w : World E)
      → w.self.battery_task ≡ r.world.self.battery_task
      → IsReleasable r
      → IsReleasable (record r { world = w; on_unload = stop_realtime ∷ r.on_unload })
  realtime_started r w q h = record { registered = registered_of }
    where
      registered_of :
          (x : Resource)
          → holds x (record r { world = w; on_unload = stop_realtime ∷ r.on_unload }) ≡ true
          → Memᴰ (released_by x) (stop_realtime ∷ r.on_unload)
      registered_of discovery held = Memᴰ.tail (h.registered discovery held)
      registered_of unavailable held = Memᴰ.tail (h.registered unavailable held)
      registered_of updates held = Memᴰ.tail (h.registered updates held)
      registered_of realtime held = Memᴰ.head refl
      registered_of battery held = Memᴰ.tail (h.registered battery (sym q ∙ held))

  battery_started :
      (r : Running E) (w : World E)
      → w.self.realtime_task ≡ r.world.self.realtime_task
      → IsReleasable r
      → IsReleasable (record r { world = w; on_unload = stop_battery ∷ r.on_unload })
  battery_started r w q h = record { registered = registered_of }
    where
      registered_of :
          (x : Resource)
          → holds x (record r { world = w; on_unload = stop_battery ∷ r.on_unload }) ≡ true
          → Memᴰ (released_by x) (stop_battery ∷ r.on_unload)
      registered_of discovery held = Memᴰ.tail (h.registered discovery held)
      registered_of unavailable held = Memᴰ.tail (h.registered unavailable held)
      registered_of updates held = Memᴰ.tail (h.registered updates held)
      registered_of realtime held = Memᴰ.tail (h.registered realtime (sym q ∙ held))
      registered_of battery held = Memᴰ.head refl

  pub set_up_realtime-Keeps : (b : Bool) → Keeps (IsReleasable {E = E}) (set_up_realtime b)
  unfolding set_up_realtime
  set_up_realtime-Keeps false = record { at = λ r h. register-IsReleasable stop_realtime r h }
  set_up_realtime-Keeps true = record {
    at = λ r h.
        realtime_started r (async_start_realtime r.world) (start_realtime-battery_task r.world) h;
  }

  pub set_up_battery-Keeps : (b : Bool) → Keeps (IsReleasable {E = E}) (set_up_battery b)
  unfolding set_up_battery
  set_up_battery-Keeps false = record { at = λ r h. register-IsReleasable stop_battery r h }
  set_up_battery-Keeps true = record {
    at = λ r h.
        battery_started r (async_start_battery r.world) (start_battery-realtime_task r.world) h;
  }
