-- ===== src/Setup/Unload.antt =====
-- The callbacks that an unload of the entry runs (custom_components/aqara_u200/__init__.py and
-- custom_components/aqara_u200/bluetooth.py).
pub mod Stops
use haos_aqara.Base.{List, [], ◌∷◌, false}
use haos_aqara.Coordinator.Refresh.{async_stop_realtime, async_stop_battery}
use haos_aqara.Setup.{
  UnloadCallback, cancel_bluetooth, stop_realtime, stop_battery, remove_update_listener, Running,
}

module _ {E : Type 0} where
  unfoldable pub unload : UnloadCallback → Running E → Running E
  unfolding async_stop_realtime async_stop_battery
  unload cancel_bluetooth r = record r { discovery_callback = false; unavailable_callback = false }
  unload stop_realtime r = record r { world = async_stop_realtime r.world }
  unload stop_battery r = record r { world = async_stop_battery r.world }
  unload remove_update_listener r = record r { update_listener = false }

  pub unload_all : List UnloadCallback → Running E → Running E
  unfolding unload
  unload_all [] r = r
  unload_all (c ∷ order) r = unload_all order (unload c r)
