-- ===== src/Tests/Operations.antt =====
-- The theorems on the serialized operations, at a lock in reach.
use haos_aqara.Base.{ℕ, ◌+◌, ◌/◌, max, ◌≡◌, refl, true, false, none, some, arith}
use haos_aqara.Errors.{ok, err, aqara, authentication, presence_required}
use haos_aqara.Exec.{Exec, raise}
use haos_aqara.Coordinator.State.{World, Operation, PressReason}
use haos_aqara.Coordinator.Callbacks.{await, preempt_listen}
use haos_aqara.Coordinator.Operation.{
  serialized, run_operation, run_set_operation, ensure_presence, notification_id, run_body, begin,
}
use haos_aqara.Coordinator.Operation.Settles.{IsIdle, serialized-IsIdle}
use haos_aqara.Coordinator.Operation.Presence.{Gated, run_set_operation-Gated}
use haos_aqara.Coordinator.Operation.Asleep.{Ends, StaysAsleep, ensure_presence-Ends}
use haos_aqara.Coordinator.Operation.Notifications.{Ended, is_shown, ensure_presence-Shown}
use haos_aqara.Coordinator.Operation.Results.{Actuated, run_operation-Actuated}
use haos_aqara.Settings.Data.{ReadName}
use haos_aqara.Coordinator.Operation.Reread.{Reread, run_set_operation-Reread}
use haos_aqara.Coordinator.Read.{read_one}
use haos_aqara.Coordinator.Operation.Noted.{IsNoted, run_body-IsNoted}
use haos_aqara.Tests.Lock.{client, context, world}

abbrev refused_lock : Exec (World ℕ) (Unit {0})
refused_lock = raise (aqara authentication)

world-IsIdle : IsIdle (context true) world
world-IsIdle = record { free = refl; no_progress = refl; coherent = refl }

serialized-IsIdle_example :
    IsIdle (context true) (serialized (context true) Operation.lock refused_lock world).1
serialized-IsIdle_example =
    serialized-IsIdle (context true) Operation.lock refused_lock world world-IsIdle

set_delay :
    (run_set_operation
      (context true)
      Operation.set_alert_delay
      ((client true).async_set_alert_delay 60)
      (some PressReason.add_password)
      none
      world).0
    ≡ ok tt
unfolding run_set_operation await preempt_listen read_one
set_delay = refl

run_set_operation-Gated_example :
    Gated
      (context true)
      Operation.set_alert_delay
      ((client true).async_set_alert_delay 60)
      PressReason.add_password
      world
run_set_operation-Gated_example =
    run_set_operation-Gated (context true) Operation.set_alert_delay
      ((client true).async_set_alert_delay 60) PressReason.add_password none world set_delay

unlocks : (run_operation (context true) Operation.unlock (client true).async_unlock world).0 ≡ ok tt
unfolding run_operation await preempt_listen
unlocks = refl

run_operation-Actuated_example :
    Actuated
      (context true)
      Operation.unlock
      (client true).async_unlock
      world
      (run_operation (context true) Operation.unlock (client true).async_unlock world).1
run_operation-Actuated_example =
    run_operation-Actuated (context true) Operation.unlock (client true).async_unlock world unlocks

asleep : StaysAsleep (context false)
asleep = record {
  reads = λ e. e;
  answer = λ e. some false;
  answered = λ e. refl;
  asleep = λ e. refl;
  counted = λ e. omega arith;
  slept = λ n e. refl;
  sleep_counted = λ n e. refl;
  pressed = λ s e. refl;
  press_counted = λ s e. refl;
}

ensure_presence-Ends_example :
    Ends
      (context false)
      asleep
      (err (aqara presence_required))
      (1 + max 1 (30 / 3))
      world
      (ensure_presence (context false) PressReason.enrol 30 world)
ensure_presence-Ends_example =
    ensure_presence-Ends (context false) asleep PressReason.enrol 30 world

ensure_presence-Shown_example :
    Ended
      (context false)
      (notification_id (context false))
      (is_shown (notification_id (context false)) world.effects)
      (is_shown
        (notification_id (context false))
        (ensure_presence (context false) PressReason.enrol 30 world).1.effects)
ensure_presence-Shown_example =
    ensure_presence-Shown (context false) (notification_id (context false)) PressReason.enrol 30
      world

run_body-IsNoted_example :
    IsNoted
      (context true)
      (aqara authentication)
      (refused_lock (begin (context true) Operation.lock world)).1
      (run_body (context true) Operation.lock refused_lock world)
run_body-IsNoted_example =
    run_body-IsNoted (context true) Operation.lock refused_lock world (aqara authentication) refl

sets_volume :
    (run_set_operation
      (context true)
      Operation.set_alert_volume
      ((client true).async_set_alert_volume 1)
      none
      (some ReadName.alert_volume)
      world).0
    ≡ ok tt
unfolding run_set_operation await preempt_listen read_one
sets_volume = refl

run_set_operation-Reread_example :
    Reread
      (context true)
      Operation.set_alert_volume
      ((client true).async_set_alert_volume 1)
      ReadName.alert_volume
      world
      (run_set_operation
        (context true)
        Operation.set_alert_volume
        ((client true).async_set_alert_volume 1)
        none
        (some ReadName.alert_volume)
        world).1
run_set_operation-Reread_example =
    run_set_operation-Reread (context true) Operation.set_alert_volume
      ((client true).async_set_alert_volume 1) none ReadName.alert_volume world sets_volume
