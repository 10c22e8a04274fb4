-- ===== src/Setup/Unload/Stops.antt =====
-- That an unload releases what the set-up of custom_components/aqara_u200/__init__.py has acquired.
use haos_aqara.Base.{
  ◌≡◌, inl, inr, refl, ◌∙◌, Bool, true, false, subst, List, [], ◌∷◌, Bool-cases, ap, if◌then◌else◌,
  arith,
}
use mathlib.Core.List.{Memᴰ}
use haos_aqara.Coordinator.State.{World, Effect, Task, task_cancelled}
use haos_aqara.Coordinator.Callbacks.{preempt_listen, update, emit}
use haos_aqara.Coordinator.Refresh.{async_stop_realtime, async_stop_battery}
use haos_aqara.Setup.{
  UnloadCallback, cancel_bluetooth, stop_realtime, stop_battery, remove_update_listener, Running,
}
use haos_aqara.Setup.Unload.{unload, unload_all}

-- What a loaded entry holds: the callbacks of Home Assistant and the tasks of the coordinator.
pub data Resource : Type 0 where
  discovery unavailable updates realtime battery : Resource

-- The callback that is to release it.
abbrev pub released_by : Resource → UnloadCallback
released_by discovery = cancel_bluetooth
released_by unavailable = cancel_bluetooth
released_by updates = remove_update_listener
released_by realtime = stop_realtime
released_by battery = stop_battery

module _ {E : Type 0} where
  abbrev pub holds : Resource → Running E → Bool
  holds discovery r = r.discovery_callback
  holds unavailable r = r.unavailable_callback
  holds updates r = r.update_listener
  holds realtime r = r.world.self.realtime_task
  holds battery r = r.world.self.battery_task

  -- Only an effect is added.
  preempt_listen-self : (w : World E) → (preempt_listen w).self ≡ w.self
  unfolding preempt_listen
  preempt_listen-self w = ground arith

  stopped_case :
      (w : World E) (task : Bool) (e : Effect)
      → w.self.realtime_task ≡ task
      → ((if task
            then emit e (update (λ self. record self { realtime_task = false }) w)
            else w).self.realtime_task
          ≡ false)
        × ((if task
              then emit e (update (λ self. record self { realtime_task = false }) w)
              else w).self.battery_task
            ≡ w.self.battery_task)
  stopped_case w true e h = (refl, refl)
  stopped_case w false e h = (h, refl)

  stop_realtime-tasks :
      (w : World E)
      → ((async_stop_realtime w).self.realtime_task ≡ false)
        × ((async_stop_realtime w).self.battery_task ≡ w.self.battery_task)
  unfolding async_stop_realtime
  stop_realtime-tasks w =
      let w' : World E = preempt_listen (update (λ self. record self { realtime_stop = true }) w) in
      let stopped = stopped_case w' w'.self.realtime_task (task_cancelled Task.realtime) refl in
      (
        stopped.0,
        stopped.1
            ∙ ap (λ self. self.battery_task)
                (preempt_listen-self (update (λ self. record self { realtime_stop = true }) w)),
      )

  stop_battery-tasks :
      (w : World E)
      → ((async_stop_battery w).self.battery_task ≡ false)
        × ((async_stop_battery w).self.realtime_task ≡ w.self.realtime_task)
  unfolding async_stop_battery
  stop_battery-tasks w = (ground arith, ground arith)

  -- Released, and a callback that is not its own does not bring it back.
  unload-releases : (x : Resource) (r : Running E) → holds x (unload (released_by x) r) ≡ false
  unfolding unload
  unload-releases discovery r = refl
  unload-releases unavailable r = refl
  unload-releases updates r = refl
  unload-releases realtime r = (stop_realtime-tasks r.world).0
  unload-releases battery r = (stop_battery-tasks r.world).0

  unload-keeps :
      (x : Resource) (c : UnloadCallback) (r : Running E)
      → holds x r ≡ false
      → holds x (unload c r) ≡ false
  unfolding unload
  unload-keeps discovery cancel_bluetooth r h = refl
  unload-keeps unavailable cancel_bluetooth r h = refl
  unload-keeps updates remove_update_listener r h = refl
  unload-keeps realtime stop_realtime r h = (stop_realtime-tasks r.world).0
  unload-keeps battery stop_realtime r h = (stop_realtime-tasks r.world).1 ∙ h
  unload-keeps realtime stop_battery r h = (stop_battery-tasks r.world).1 ∙ h
  unload-keeps battery stop_battery r h = (stop_battery-tasks r.world).0
  unload-keeps discovery stop_realtime r h = h
  unload-keeps discovery stop_battery r h = h
  unload-keeps discovery remove_update_listener r h = h
  unload-keeps unavailable stop_realtime r h = h
  unload-keeps unavailable stop_battery r h = h
  unload-keeps unavailable remove_update_listener r h = h
  unload-keeps updates cancel_bluetooth r h = h
  unload-keeps updates stop_realtime r h = h
  unload-keeps updates stop_battery r h = h
  unload-keeps realtime cancel_bluetooth r h = h
  unload-keeps realtime remove_update_listener r h = h
  unload-keeps battery cancel_bluetooth r h = h
  unload-keeps battery remove_update_listener r h = h

  unload_all-keeps :
      (x : Resource) (order : List UnloadCallback) (r : Running E)
      → holds x r ≡ false
      → holds x (unload_all order r) ≡ false
  unfolding unload_all
  unload_all-keeps x [] r h = h
  unload_all-keeps x (c ∷ order) r h = unload_all-keeps x order (unload c r) (unload-keeps x c r h)

  unload_all-releases :
      (x : Resource) (order : List UnloadCallback) (r : Running E)
      → Memᴰ (released_by x) order
      → holds x (unload_all order r) ≡ false
  unfolding unload_all
  unload_all-releases x [] r m = elim m [ ]
  unload_all-releases x (c ∷ order) r (Memᴰ.head e) =
      unload_all-keeps x order (unload c r)
        (subst (λ c. holds x (unload c r) ≡ false) e (unload-releases x r))
  unload_all-releases x (c ∷ order) r (Memᴰ.tail m) = unload_all-releases x order (unload c r) m

  -- Whatever is held, the callback that releases it is registered.
  pub record IsReleasable (r : Running E) : Type 0 where
    pub registered : (x : Resource) → holds x r ≡ true → Memᴰ (released_by x) r.on_unload

  -- Whatever the order.
  pub unload_all-IsStopped :
      (r : Running E)
      → IsReleasable r
      → (order : List UnloadCallback) → ((c : UnloadCallback) → Memᴰ c r.on_unload → Memᴰ c order)
      → (x : Resource) → holds x (unload_all order r) ≡ false
  unload_all-IsStopped r h order all x = elim (Bool-cases (holds x r)) [
    | inl held ↦ unload_all-releases x order r (all (released_by x) (h.registered x held))
    | inr free ↦ unload_all-keeps x order r free
  ]
