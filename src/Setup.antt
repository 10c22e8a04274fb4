-- ===== src/Setup.antt =====
-- The set-up of a config entry, custom_components/aqara_u200/__init__.py. The platforms and the
-- registration of callbacks are Home Assistant's; what is registered is kept here.
pub mod Credentials
pub mod Registered
pub mod Releasable
pub mod Restored
pub mod Accepted
pub mod Started
pub mod Unload
pub mod Reload
use haos_aqara.Base.{
  ℕ, zero, suc, Bool, true, false, not, Option, none, some, String, List, [], ◌∷◌, if◌then◌else◌,
}
use haos_aqara.Base.Int.{ℤ, pos, negsuc}
use haos_aqara.Const.{default_poll_hours}
use haos_aqara.Errors.{Result, ok, err}
use haos_aqara.Exec.{Exec, pure, raise, modify, when, ◌>>=◌, ◌>>◌}
use haos_aqara.Bluetooth.{initial_state}
use haos_aqara.Boundary.{Call, Context, Host, PollHours, hours, unreadable}
use haos_aqara.Coordinator.State.{World, initial, build_snapshot}
use haos_aqara.Coordinator.Callbacks.{await}
use haos_aqara.Coordinator.Refresh.{
  async_start_realtime, async_start_battery, async_start_initial_sync,
}
use haos_aqara.Client.Library.{Library}
use haos_aqara.Client.Session.{Adapter}
use haos_aqara.Client.Adapter.{adapter}
use haos_aqara.Config.Data.{ConfigData, EntryOptions}
use haos_aqara.Config.Options.{get_or_else}

-- What `entry.async_on_unload` is given: the function that `async_start` of the Bluetooth manager
-- returns, the two stops of the coordinator, and the removal of the update listener.
pub data UnloadCallback : Type 0 where
  cancel_bluetooth stop_realtime stop_battery remove_update_listener : UnloadCallback

-- A loaded entry: its coordinator, which callbacks Home Assistant holds of it, the task that enables
-- offline sessions, and what runs on an unload, the newest first.
pub record Running (E : Type 0) : Type 0 where
  pub world : World E
  pub discovery_callback : Bool
  pub unavailable_callback : Bool
  pub update_listener : Bool
  pub offline_task : Bool
  pub on_unload : List UnloadCallback

-- The truth value of the option for the poll.
unfoldable pub is_truthy : PollHours → Bool
is_truthy (hours (pos zero)) = false
is_truthy (hours (pos (suc n))) = true
is_truthy (hours (negsuc n)) = true
is_truthy (unreadable truthy) = truthy

module _ {E : Type 0} where
  abbrev pub in_world : {X : Type 0} → Exec (World E) X → Exec (Running E) X
  in_world m r = ((m r.world).0, record r { world = (m r.world).1 })

  abbrev pub change_world : (World E → World E) → Running E → Running E
  change_world f r = record r { world = f r.world }

  abbrev pub register : UnloadCallback → Running E → Running E
  register c r = record r { on_unload = c ∷ r.on_unload }

  -- `AqaraU200BluetoothManager.async_start`, and its result handed to `async_on_unload`
  unfoldable pub start_bluetooth : Running E → Running E
  start_bluetooth r = record r {
    discovery_callback = true;
    unavailable_callback = true;
    on_unload = cancel_bluetooth ∷ r.on_unload;
  }

  unfoldable pub listen_for_updates : Running E → Running E
  listen_for_updates r = record r {
    update_listener = true;
    on_unload = remove_update_listener ∷ r.on_unload;
  }

  unfoldable pub enable_offline : Running E → Running E
  enable_offline r = record r { offline_task = true }

  -- The real-time part: the stop is registered in any case.
  unfoldable pub set_up_realtime : (realtime : Bool) → Exec (Running E) Unit
  set_up_realtime realtime = do
    modify (register stop_realtime)
    when realtime (modify (change_world async_start_realtime))

  unfoldable pub set_up_battery : (poll : Bool) → Exec (Running E) Unit
  set_up_battery poll = do
    modify (register stop_battery)
    when poll (modify (change_world async_start_battery))

  -- What follows the platforms, by the options: the initial sync is started in any case.
  unfoldable pub start_updates : (realtime poll offline : Bool) → Exec (Running E) Bool
  unfolding set_up_realtime set_up_battery enable_offline listen_for_updates
  start_updates realtime poll offline = do
    modify (change_world async_start_initial_sync)
    set_up_realtime realtime
    set_up_battery poll
    when offline (modify enable_offline)
    modify listen_for_updates
    pure true

module _ {E : Type 0} (cx : Context E) where
  -- `async_setup_entry`, from the start of the Bluetooth manager on
  unfoldable pub start :
      EntryOptions → (forward_entry_setups : Call E (Unit {0})) → Exec (Running E) Bool
  unfolding start_bluetooth start_updates is_truthy get_or_else
  start options forward_entry_setups = do
    modify start_bluetooth
    in_world (await cx forward_entry_setups)
    start_updates (get_or_else false options.realtime_state)
        (is_truthy (get_or_else (hours (pos default_poll_hours)) options.poll_hours))
        (get_or_else false options.offline_mode)

  -- The manager and the coordinator as they are constructed.
  unfoldable pub constructed : (has_device : Bool) → E → Running E
  unfolding initial_state build_snapshot
  constructed has_device env = record {
    world = record {
      self = initial;
      bluetooth = initial_state has_device;
      snapshot = build_snapshot cx.client.control_enabled (initial_state has_device) initial;
      effects = [];
      env = env;
    };
    discovery_callback = false;
    unavailable_callback = false;
    update_listener = false;
    offline_task = false;
    on_unload = [];
  }
