-- ===== src/Setup/Releasable.antt =====
-- What the set-up of custom_components/aqara_u200/__init__.py acquires, and that an unload releases it.
use haos_aqara.Base.{◌≡◌, refl, ap, Bool, true, false, false≢true, List, []}
use mathlib.Core.List.{Memᴰ}
use haos_aqara.Exec.{modify}
use haos_aqara.Exec.Keeps.{Keeps, keeps_rules}
use haos_aqara.Boundary.{Call, Context}
use haos_aqara.Config.Data.{EntryOptions}
use haos_aqara.Coordinator.Callbacks.{await}
use haos_aqara.Coordinator.Callbacks.Frame.{core-await}
use haos_aqara.Coordinator.Refresh.{async_start_initial_sync}
use haos_aqara.Setup.{
  start_updates, UnloadCallback, Running, start, constructed, enable_offline, in_world,
  change_world,
}
use haos_aqara.Setup.Unload.{unload_all}
use haos_aqara.Setup.Unload.Stops.{
  Resource, discovery, unavailable, updates, realtime, battery, released_by, holds, IsReleasable,
  unload_all-IsStopped,
}
use haos_aqara.Setup.Registered.{
  start_bluetooth-IsReleasable, listen_for_updates-IsReleasable, same_tasks-IsReleasable,
  set_up_realtime-Keeps, set_up_battery-Keeps,
}

module _ {E : Type 0} (cx : Context E) where
  in_world-Keeps : {X : Type 0} (call : Call E X) → Keeps IsReleasable (in_world (await cx call))
  in_world-Keeps call = record {
    at = λ r h.
        same_tasks-IsReleasable r (await cx call r.world).1
          (ap (λ c. c.realtime_task) (core-await cx call r.world))
          (ap (λ c. c.battery_task) (core-await cx call r.world)) h;
  }

  initial_sync-Keeps : Keeps IsReleasable (modify (change_world (async_start_initial_sync {E = E})))
  unfolding async_start_initial_sync
  initial_sync-Keeps = record {
    at = λ r h. same_tasks-IsReleasable r (async_start_initial_sync r.world) refl refl h;
  }

  enable_offline-IsReleasable : (r : Running E) → IsReleasable r → IsReleasable (enable_offline r)
  unfolding enable_offline
  enable_offline-IsReleasable r h = record { registered = registered_of }
    where
      registered_of :
          (x : Resource) → holds x (enable_offline r) ≡ true → Memᴰ (released_by x) r.on_unload
      registered_of discovery held = h.registered discovery held
      registered_of unavailable held = h.registered unavailable held
      registered_of updates held = h.registered updates held
      registered_of realtime held = h.registered realtime held
      registered_of battery held = h.registered battery held

  start_updates-Keeps :
      (listen poll offline : Bool) → Keeps IsReleasable (start_updates {E = E} listen poll offline)
  unfolding start_updates
  start_updates-Keeps listen poll offline =
      search
        (
          keeps_rules, initial_sync-Keeps, set_up_realtime-Keeps, set_up_battery-Keeps,
          enable_offline-IsReleasable, listen_for_updates-IsReleasable,
        )
        depth 12

  start-Keeps :
      (options : EntryOptions) (forward : Call E (Unit {0}))
      → Keeps IsReleasable (start cx options forward)
  unfolding start
  start-Keeps options forward =
      search (keeps_rules, start_bluetooth-IsReleasable, in_world-Keeps, start_updates-Keeps) depth
        12

  constructed-IsReleasable :
      (has_device : Bool) (env : E) → IsReleasable (constructed cx has_device env)
  unfolding constructed
  constructed-IsReleasable has_device env = record { registered = registered_of }
    where
      registered_of :
          (x : Resource) → holds x (constructed cx has_device env) ≡ true → Memᴰ (released_by x) []
      registered_of discovery held = elim (false≢true held) [ ]
      registered_of unavailable held = elim (false≢true held) [ ]
      registered_of updates held = elim (false≢true held) [ ]
      registered_of realtime held = elim (false≢true held) [ ]
      registered_of battery held = elim (false≢true held) [ ]

  -- Whatever the options are and however the set-up of the platforms ends, once the callbacks that
  -- were registered up to then have run, in any order, no callback of Home Assistant and no task of
  -- the real-time listen or of the battery poll is left.
  pub start-unloads :
      (options : EntryOptions) (forward_entry_setups : Call E (Unit {0})) (has_device : Bool)
      (env : E) (order : List UnloadCallback)
      → ((c : UnloadCallback)
          → Memᴰ c
              (start cx options forward_entry_setups (constructed cx has_device env)).1.on_unload
          → Memᴰ c order)
      → (x : Resource)
      → holds x (
          unload_all order
            (start cx options forward_entry_setups (constructed cx has_device env)).1)
        ≡ false
  start-unloads options forward_entry_setups has_device env order all x =
      unload_all-IsStopped _
        ((start-Keeps options forward_entry_setups).at (constructed cx has_device env)
          (constructed-IsReleasable has_device env))
        order all x
