-- ===== src/Tests/Setups.antt =====
-- The theorems on the set-up of an entry, at the lock that answers everything.
use haos_aqara.Base.{◌≡◌, refl, true, false, some, none, List, [], ◌∷◌}
use haos_aqara.Base.Int.{pos}
use haos_aqara.Const.{default_poll_hours}
use mathlib.Core.List.{Memᴰ}
use haos_aqara.Errors.{ok}
use haos_aqara.Boundary.{hours}
use haos_aqara.Config.Data.{EntryOptions}
use haos_aqara.Config.Options.{get_or_else}
use haos_aqara.Setup.{
  UnloadCallback, cancel_bluetooth, stop_realtime, stop_battery, remove_update_listener, start,
  constructed, is_truthy,
}
use haos_aqara.Setup.Unload.{unload_all}
use haos_aqara.Setup.Unload.Stops.{holds, realtime}
use haos_aqara.Setup.Releasable.{start-unloads}
use haos_aqara.Setup.Started.{Holding, start-Holding}
use haos_aqara.Tests.Lock.{answer, context}

abbrev chosen : EntryOptions
chosen = record {
  realtime_state = some true;
  poll_hours = some (hours (pos 6));
  offline_mode = none;
  keypad_wake_switch = none;
}

abbrev order : List UnloadCallback
order = cancel_bluetooth ∷ stop_realtime ∷ stop_battery ∷ remove_update_listener ∷ []

in_order : (c : UnloadCallback) → Memᴰ c order
in_order cancel_bluetooth = Memᴰ.head refl
in_order stop_realtime = Memᴰ.tail (Memᴰ.head refl)
in_order stop_battery = Memᴰ.tail (Memᴰ.tail (Memᴰ.head refl))
in_order remove_update_listener = Memᴰ.tail (Memᴰ.tail (Memᴰ.tail (Memᴰ.head refl)))

start-unloads_example :
    holds realtime (
      unload_all order
        (start (context true) chosen (answer tt) (constructed (context true) true 0)).1)
    ≡ false
start-unloads_example =
    start-unloads (context true) chosen (answer tt) true 0 order (λ c m. in_order c) realtime

start-Holding_example :
    ((start (context true) chosen (answer tt) (constructed (context true) true 0)).0 ≡ ok true)
    × Holding true true
        (get_or_else false chosen.realtime_state)
        (is_truthy (get_or_else (hours (pos default_poll_hours)) chosen.poll_hours))
        (get_or_else false chosen.offline_mode)
        (start (context true) chosen (answer tt) (constructed (context true) true 0)).1
start-Holding_example = start-Holding (context true) chosen (answer tt) true 0 refl
