-- ===== src/Tests/Interleavings.antt =====
-- The theorems on coroutines side by side: a lock operation within the lock, and a read of the
-- battery and the listen that wait behind it.
use haos_aqara.Base.{false, nat_eq, ℕ, ◌≡◌, refl, true, none, some, []}
use haos_aqara.Errors.{ok}
use haos_aqara.Settings.Data.{ReadName}
use haos_aqara.Coordinator.State.{Operation}
use haos_aqara.Coordinator.Callbacks.{publish}
use haos_aqara.Coordinator.Interleaving.{
  operation, read, listen, System, asks, enters, goes_on, leaves, observed, Reach, begins, later,
  ask, start, stop, may_ask, may_start,
}
use haos_aqara.Coordinator.Interleaving.Assign.{assign}
use haos_aqara.Coordinator.Interleaving.Kept.{Serves, marks}
use haos_aqara.Coordinator.Interleaving.Abstract.{Owner, replay}
use haos_aqara.Coordinator.Interleaving.Owner.{Implements, history, history-Implements}
use haos_aqara.Coordinator.Interleaving.Shown.{Shows}
use haos_aqara.Coordinator.Interleaving.Visible.{Reach-Shows}
use haos_aqara.Tests.Lock.{context, world}

world-unused : Serves none (marks world.self)
world-unused = (refl, refl, refl)

record Run : Type 0 where
  last : System ℕ
  reach : Reach (context true) world last

abbrev contended : Run
unfolding may_ask may_start assign ask start publish
contended = record {
  last = _;
  reach =
      later
        (later
          (later (later begins (asks 0 (operation Operation.lock) refl refl))
            (enters 0 (operation Operation.lock) [] refl refl refl refl))
          (asks 1 (read ReadName.battery) refl refl))
        (asks 2 listen refl refl);
}

history-Implements_example :
    (o : Owner) × (replay (history (context true) contended.reach) none ≡ some o)
    × Implements contended.last o
history-Implements_example = history-Implements (context true) world-unused contended.reach

-- A lock operation that has observed the bolt and come to its end
abbrev finished : Run
unfolding may_ask may_start assign ask start publish
finished = record {
  last = _;
  reach =
      later
        (later
          (later (later begins (asks 0 (operation Operation.lock) refl refl))
            (enters 0 (operation Operation.lock) [] refl refl refl refl))
          (goes_on 0 (operation Operation.lock) (observed (some true)) refl))
        (leaves 0 (operation Operation.lock) (ok tt) refl);
}

still : finished.last.world.self.operation_in_progress ≡ false
unfolding may_ask may_start assign ask start publish stop
still = refl

Reach-Shows_example : Shows (context true) finished.last.world
Reach-Shows_example = Reach-Shows (context true) world-unused refl finished.reach still
