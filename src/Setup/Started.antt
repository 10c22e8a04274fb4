-- ===== src/Setup/Started.antt =====
-- What is running once the set-up of custom_components/aqara_u200/__init__.py has succeeded.
use haos_aqara.Base.{◌≡◌, refl, ap, ◌∙◌, Bool, true, false, ◌∷◌, if◌then◌else◌, arith}
use haos_aqara.Base.Int.{pos}
use haos_aqara.Const.{default_poll_hours}
use haos_aqara.Errors.{ok}
use haos_aqara.Exec.{bind-ok}
use haos_aqara.Boundary.{Call, Context, hours}
use haos_aqara.Config.Data.{EntryOptions}
use haos_aqara.Config.Options.{get_or_else}
use haos_aqara.Coordinator.State.{World}
use haos_aqara.Coordinator.Callbacks.{await}
use haos_aqara.Coordinator.Callbacks.Frame.{core-await}
use haos_aqara.Coordinator.Refresh.{
  async_start_realtime, async_start_battery, async_start_initial_sync,
}
use haos_aqara.Setup.{
  Running, start, start_updates, constructed, start_bluetooth, set_up_realtime, set_up_battery,
  enable_offline, is_truthy, listen_for_updates, in_world, remove_update_listener, stop_battery,
  stop_realtime,
}

-- What is running: the callbacks of the Bluetooth manager, the update listener and the tasks.
pub record Holding {E : Type 0} (bluetooth updates realtime poll offline : Bool) (r : Running E)
    : Type 0 where
  pub discovery_callback : r.discovery_callback ≡ bluetooth
  pub unavailable_callback : r.unavailable_callback ≡ bluetooth
  pub update_listener : r.update_listener ≡ updates
  pub realtime_task : r.world.self.realtime_task ≡ realtime
  pub battery_task : r.world.self.battery_task ≡ poll
  pub offline_task : r.offline_task ≡ offline

offline_started : (b task : Bool) → task ≡ false → (if b then true else task) ≡ b
offline_started false task h = h
offline_started true task h = refl

module _ {E : Type 0} where
  started_realtime :
      (b : Bool) (w : World E)
      → w.self.realtime_task ≡ false
      → (if b then async_start_realtime w else w).self.realtime_task ≡ b
  unfolding async_start_realtime
  started_realtime false w h = h
  started_realtime true w h = rw h

  started_realtime-battery :
      (b : Bool) (w : World E)
      → (if b then async_start_realtime w else w).self.battery_task ≡ w.self.battery_task
  unfolding async_start_realtime
  started_realtime-battery b w = ground arith

  started_battery :
      (b : Bool) (w : World E)
      → w.self.battery_task ≡ false
      → (if b then async_start_battery w else w).self.battery_task ≡ b
  unfolding async_start_battery
  started_battery false w h = h
  started_battery true w h = rw h

  started_battery-realtime :
      (b : Bool) (w : World E)
      → (if b then async_start_battery w else w).self.realtime_task ≡ w.self.realtime_task
  unfolding async_start_battery
  started_battery-realtime b w = ground arith

  -- `start_updates` at once
  updated : (realtime poll offline : Bool) (r : Running E) → Running E
  updated realtime poll offline r =
      let w = async_start_initial_sync r.world in
      let w' : World E = if realtime then async_start_realtime w else w in
      record r {
        world = if poll then async_start_battery w' else w';
        offline_task = if offline then true else r.offline_task;
        update_listener = true;
        on_unload = remove_update_listener ∷ stop_battery ∷ stop_realtime ∷ r.on_unload;
      }

  start_updates-updated :
      (realtime poll offline : Bool) (r : Running E)
      → start_updates realtime poll offline r ≡ (ok true, updated realtime poll offline r)
  unfolding start_updates set_up_realtime set_up_battery enable_offline listen_for_updates updated
  start_updates-updated true true true r = refl
  start_updates-updated true true false r = refl
  start_updates-updated true false true r = refl
  start_updates-updated true false false r = refl
  start_updates-updated false true true r = refl
  start_updates-updated false true false r = refl
  start_updates-updated false false true r = refl
  start_updates-updated false false false r = refl

  updated-Holding :
      (realtime poll offline : Bool) (r : Running E)
      → Holding true false false false false r
      → Holding true true realtime poll offline (updated realtime poll offline r)
  unfolding updated async_start_initial_sync
  updated-Holding realtime poll offline r h =
      let w = async_start_initial_sync r.world in
      let w' : World E = if realtime then async_start_realtime w else w in
      record {
        discovery_callback = h.discovery_callback;
        unavailable_callback = h.unavailable_callback;
        update_listener = refl;
        realtime_task =
            started_battery-realtime poll w' ∙ started_realtime realtime w h.realtime_task;
        battery_task =
            started_battery poll w' (started_realtime-battery realtime w ∙ h.battery_task);
        offline_task = offline_started offline r.offline_task h.offline_task;
      }

module _ {E : Type 0} (cx : Context E) where
  -- After the platforms.
  forwarded : Call E (Unit {0}) → (has_device : Bool) → E → Running E
  forwarded forward has_device env =
      (in_world (await cx forward) (start_bluetooth (constructed cx has_device env))).1

  forwarded-Holding :
      (forward : Call E (Unit {0})) (has_device : Bool) (env : E)
      → Holding true false false false false (forwarded forward has_device env)
  unfolding forwarded start_bluetooth constructed
  forwarded-Holding forward has_device env =
      let w = (start_bluetooth (constructed cx has_device env)).world in
      record {
        discovery_callback = refl;
        unavailable_callback = refl;
        update_listener = refl;
        realtime_task = ap (λ c. c.realtime_task) (core-await cx forward w);
        battery_task = ap (λ c. c.battery_task) (core-await cx forward w);
        offline_task = refl;
      }

  -- A set-up whose platforms come up succeeds, and leaves the callbacks of the Bluetooth manager and
  -- the update listener registered, the real-time listen, the battery poll and the task for offline
  -- sessions each exactly if the options ask for it.
  pub start-Holding :
      (options : EntryOptions) (forward_entry_setups : Call E (Unit {0})) (has_device : Bool)
      (env : E)
      → (forward_entry_setups env).0 ≡ ok tt
      → ((start cx options forward_entry_setups (constructed cx has_device env)).0 ≡ ok true)
        × Holding true true
            (get_or_else false options.realtime_state)
            (is_truthy (get_or_else (hours (pos default_poll_hours)) options.poll_hours))
            (get_or_else false options.offline_mode)
            (start cx options forward_entry_setups (constructed cx has_device env)).1
  unfolding start forwarded constructed start_bluetooth await
  start-Holding options forward_entry_setups has_device env h =
      let listen = get_or_else false options.realtime_state in
      let poll = is_truthy (get_or_else (hours (pos default_poll_hours)) options.poll_hours) in
      let offline = get_or_else false options.offline_mode in
      let loaded = forwarded forward_entry_setups has_device env in
      let ends : start cx options forward_entry_setups (constructed cx has_device env)
          ≡ (ok true, updated listen poll offline loaded) =
        bind-ok (in_world (await cx forward_entry_setups)) (λ _. start_updates listen poll offline)
          (start_bluetooth (constructed cx has_device env)) tt h
        ∙ start_updates-updated listen poll offline loaded in
      rw ends (
        refl,
        updated-Holding listen poll offline loaded
            (forwarded-Holding forward_entry_setups has_device env),
      )
