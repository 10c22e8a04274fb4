-- ===== src/Tests/Entities.antt =====
-- The theorems on the entities and the diagnostics, at the lock that answers everything.
use haos_aqara.Base.{◌≡◌, refl, true, false, codes}
use haos_aqara.Errors.{ok}
use haos_aqara.Coordinator.Callbacks.{await, preempt_listen}
use haos_aqara.Coordinator.Operation.{run_operation}
use haos_aqara.Coordinator.Operation.Settles.{IsIdle}
use haos_aqara.Coordinator.Requests as Requests
use haos_aqara.Entities.Surface.{surfaced}
use haos_aqara.Entities.Lock as Lock
use haos_aqara.Entities.Select.{Select, options, is_in, keys}
use haos_aqara.Entities.Commands.{select_option, perform, IsOffered, IsSurfaced, perform-IsSurfaced}
use haos_aqara.Entities.Shown.{Shows, actuate, asked_for, actuate-Shows}
use haos_aqara.Diagnostics.{Runtime}
use haos_aqara.Tests.Lock.{context, world}

low-IsOffered : IsOffered (select_option Select.alert_volume "low")
unfolding IsOffered options is_in keys
low-IsOffered = refl

perform-IsSurfaced_example :
    IsSurfaced (perform (context true) (select_option Select.alert_volume "low") world).0
unfolding await
perform-IsSurfaced_example =
    perform-IsSurfaced (context true) (λ v. tt) (select_option Select.alert_volume "low") world
      low-IsOffered

world-IsIdle : IsIdle (context true) world
world-IsIdle = record { free = refl; no_progress = refl; coherent = refl }

unlocked : (actuate (context true) false world).0 ≡ ok tt
unfolding Lock.async_unlock Requests.async_unlock surfaced run_operation await preempt_listen
unlocked = refl

actuate-Shows_example :
    Shows
      (context true)
      (asked_for (context true) false).0
      (asked_for (context true) false).1
      world
      (actuate (context true) false world).1
actuate-Shows_example = actuate-Shows (context true) false world world-IsIdle unlocked

abbrev runtime : Runtime
runtime = record {
  title = codes "Front door";
  version = 2;
  address = codes "54:EF:44:00:AB:CD";
  device_id = codes "matt.1234";
  region = codes "EU";
  snapshot = world.snapshot;
}
