-- ===== src/Tests/Tasks.antt =====
-- The theorems on the background tasks, at concrete inputs.
use haos_aqara.Base.{◌≤◌, true, false, none, some, ℕ, ◌+◌, arith, refl, [], ◌∷◌}
use haos_aqara.Coordinator.Refresh.Tasks.{
  HasOne, created_realtime, cancelled_realtime, act_all, start_realtime, stop_realtime,
  act_all-HasOne,
}
use haos_aqara.Settings.Data.{ReadName}
use haos_aqara.Coordinator.Read.{read_one}
use haos_aqara.Coordinator.Refresh.{refresh_all, refresh_pass, refresh_order}
use haos_aqara.Coordinator.Refresh.Sparing.{Meter, once, if_unread, refresh_all-Costs}
use haos_aqara.Errors.{ok}
use haos_aqara.Boundary.{Call, Context}
use haos_aqara.Tests.Lock.{client, context, world}

world-HasOne : HasOne world
unfolding created_realtime cancelled_realtime
world-HasOne = record { balance = refl }

act_all-HasOne_example :
    HasOne (act_all (start_realtime ∷ start_realtime ∷ stop_realtime ∷ start_realtime ∷ []) world)
act_all-HasOne_example =
    act_all-HasOne (start_realtime ∷ start_realtime ∷ stop_realtime ∷ start_realtime ∷ []) world
      world-HasOne

abbrev quiet : {A : Type 0} → A → Call ℕ A
quiet a e = (ok a, [], e)

-- The lock, where only a read of its state counts.
abbrev counting : Context ℕ
counting = record (context true) {
  client = record (client true) {
    async_read_user_table = quiet none;
    async_read_battery = quiet (some 80);
    async_read_door_type = quiet (some "eu");
    async_read_assist_turn = quiet none;
    async_read_pull_spring = quiet none;
    async_read_auxiliary_locking = quiet none;
    async_read_system_volume = quiet none;
    async_read_language = quiet none;
    async_read_alarm_volume = quiet none;
    async_read_alert_volume = quiet (some "high");
    async_read_auto_lockup_delay = quiet none;
    async_read_auto_lock_time = quiet none;
    async_read_verify_fail_time = quiet none;
    async_read_alert_delay = quiet none;
  };
}

counted : (name : ReadName) (e : ℕ) → (read_one counting name e).2 ≤ once ReadName.state name + e
unfolding read_one once
counted ReadName.state e = omega arith
counted _ e = omega arith

meter : Meter counting ReadName.state
meter = record {
  reads = λ e. e;
  counted = counted;
  acquire_free = λ e. omega arith;
  sleep_free = λ seconds e. omega arith;
}

refresh_all-Costs_example :
    meter.reads (refresh_all counting world).1.env
    ≤ 1
      + if_unread ReadName.state (refresh_pass counting false refresh_order world).1.self
      + meter.reads world.env
refresh_all-Costs_example = refresh_all-Costs counting ReadName.state meter world
