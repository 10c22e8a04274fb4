-- ===== src/Coordinator/Refresh.antt =====
-- The background tasks of custom_components/aqara_u200/coordinator.py: the refresh of all values,
-- the battery poll and the held real-time listen.
pub mod Pace
pub mod Tasks
pub mod Sparing
use haos_aqara.Base.{
  ℕ, zero, suc, ◌+◌, ◌*◌, ◌%◌, Bool, true, false, not, ◌&&◌, Option, none, some, List, [], ◌∷◌,
  is_some, get_or, length, if◌then◌else◌,
}
use haos_aqara.Base.Int.{ℤ, pos, negsuc}
use haos_aqara.Const.{
  battery_initial_delay_seconds, rotation_fill_seconds, rotation_poll_seconds, refresh_gap_seconds,
  realtime_gap_seconds, realtime_session_seconds, default_poll_hours,
}
use haos_aqara.Errors.{Result, err, cancelled}
use haos_aqara.Exec.{Exec, pure, raise, gets, modify, attempt, finally, when, ◌>>=◌, ◌>>◌}
use haos_aqara.Boundary.{PollHours, hours, unreadable, Context}
use haos_aqara.Settings.Data.{
  ReadName, state, battery, door_type, assist_turn, pull_spring, auxiliary_locking,
  auto_lockup_relock_delay, auto_lock_on_close_delay, verify_fail_time, alert_delay, system_volume,
  language, alert_volume, alarm_volume, credentials,
}
use haos_aqara.Coordinator.State.{Coordinator, pending, World, Task, task_created, task_cancelled}
use haos_aqara.Coordinator.Callbacks.{emit, update, preempt_listen, await}
use haos_aqara.Coordinator.Read.{is_unread, do_read, with_operation_lock}

-- `order` of `async_refresh_all`
unfoldable pub refresh_order : List ReadName
refresh_order =
    state ∷ battery ∷ door_type ∷ assist_turn ∷ pull_spring ∷ auxiliary_locking
    ∷ auto_lockup_relock_delay ∷ auto_lock_on_close_delay ∷ verify_fail_time ∷ alert_delay
    ∷ system_volume ∷ language ∷ alert_volume ∷ alarm_volume ∷ credentials ∷ []

-- `tasks` of `_async_battery_loop`
unfoldable pub rotation : List ReadName
rotation =
    state ∷ battery ∷ door_type ∷ assist_turn ∷ pull_spring ∷ auxiliary_locking
    ∷ auto_lockup_relock_delay ∷ auto_lock_on_close_delay ∷ verify_fail_time ∷ alert_delay
    ∷ system_volume ∷ language ∷ alert_volume ∷ alarm_volume ∷ []

-- `[name for name in order if self._is_unread(name)]`
unfoldable pub unread_names : List ReadName → Coordinator → List ReadName
unfolding is_unread
unread_names [] self = []
unread_names (name ∷ order) self =
    let rest = unread_names order self in if is_unread name self then name ∷ rest else rest

-- `have_all`
unfoldable pub have_all : Coordinator → Bool
have_all self =
    is_some self.battery_percent
    && (is_some self.settings.door_type
        && (is_some self.settings.assist_turn
            && (is_some self.settings.pull_spring_enabled
                && (is_some self.settings.auxiliary_locking
                    && (is_some self.settings.auto_lockup_relock_delay
                        && is_some self.settings.auto_lock_on_close_delay)))))

-- `hours * 3600.0 if hours > 0 else ROTATION_POLL_SECONDS`
unfoldable pub poll_seconds_of : ℤ → ℕ
poll_seconds_of (pos zero) = rotation_poll_seconds
poll_seconds_of (pos (suc n)) = suc n * 3600
poll_seconds_of (negsuc n) = rotation_poll_seconds

-- `_poll_seconds`
unfoldable pub poll_seconds : Option PollHours → ℕ
unfolding poll_seconds_of
poll_seconds none = poll_seconds_of (pos default_poll_hours)
poll_seconds (some (hours n)) = poll_seconds_of n
poll_seconds (some (unreadable truthy)) = poll_seconds_of (pos default_poll_hours)

module _ {E : Type 0} (cx : Context E) where
  -- `_async_refresh_pass`; `gap` is `index > 0 or gap_before_first`
  pub refresh_pass : (gap : Bool) → List ReadName → Exec (World E) Unit
  unfolding do_read
  refresh_pass gap [] = pure tt
  refresh_pass gap (name ∷ names) =
      let rest = refresh_pass true names in
      do
        stopped ← gets (λ w. w.self.battery_stop)
        if stopped
            then pure tt
            else do when gap (await cx (cx.host.sleep refresh_gap_seconds)); do_read cx name; rest

  -- `if missing: ...`
  unfoldable pub retry_pass : List ReadName → Exec (World E) Unit
  unfolding refresh_pass
  retry_pass [] = pure tt
  retry_pass (name ∷ missing) = refresh_pass true (name ∷ missing)

  -- `async_refresh_all`
  unfoldable pub refresh_all : Exec (World E) Unit
  unfolding refresh_order unread_names retry_pass
  refresh_all = do
    refresh_pass false refresh_order
    missing ← gets (λ w. unread_names refresh_order w.self)
    retry_pass missing

  -- `asyncio.wait_for(self._battery_stop.wait(), timeout)`: whether the event was set in time.
  unfoldable pub wait_battery_stop : ℕ → Exec (World E) Bool
  wait_battery_stop timeout = do await cx (cx.host.sleep timeout); gets (λ w. w.self.battery_stop)

  -- The interval after a read.
  unfoldable pub interval : Coordinator → ℕ
  unfolding have_all poll_seconds
  interval self = if have_all self then poll_seconds cx.entry.poll_hours else rotation_fill_seconds

  -- The `while` loop, for a number of rounds; `false` if it is still running after these.
  pub battery_rounds : (rounds index : ℕ) → Exec (World E) Bool
  unfolding do_read wait_battery_stop interval rotation
  battery_rounds zero index = pure false
  battery_rounds (suc rounds) index =
      let rest = battery_rounds rounds (index + 1) in
      do
        stopped ← gets (λ w. w.self.battery_stop)
        if stopped then pure true else do
          do_read cx (get_or rotation (index % length rotation) state)
          seconds ← gets (λ w. interval w.self)
          stopped ← wait_battery_stop seconds
          if stopped then pure true else rest

  -- `_async_battery_loop`
  unfoldable pub battery_loop : (rounds : ℕ) → Exec (World E) Bool
  unfolding battery_rounds wait_battery_stop
  battery_loop rounds = do
    stopped ← wait_battery_stop battery_initial_delay_seconds
    if stopped then pure true else battery_rounds rounds 0

  -- The `try` of `_async_realtime_loop`.
  unfoldable pub listen_once : Exec (World E) Unit
  unfolding with_operation_lock
  listen_once = with_operation_lock cx (do
    modify (update (λ self. record self { listen_handle = some pending }))
    finally (await cx (cx.client.async_listen_realtime realtime_session_seconds))
        (modify (update (λ self. record self { listen_handle = none }))))

  -- Its `except` clauses.
  unfoldable pub after_listen : Result (Unit {0}) → Exec (World E) Unit
  after_listen (err cancelled) = do
    stopped ← gets (λ w. w.self.realtime_stop)
    if stopped then raise cancelled else pure tt
  after_listen _ = pure tt

  -- One round of the loop.
  unfoldable pub realtime_round : Exec (World E) Unit
  unfolding listen_once after_listen
  realtime_round = do
    reachable ← gets (λ w. w.bluetooth.reachable)
    if not reachable then await cx (cx.host.sleep realtime_gap_seconds) else do
      outcome ← attempt listen_once
      after_listen outcome
      await cx (cx.host.sleep realtime_gap_seconds)

  -- `_async_realtime_loop`, for a number of rounds; `false` if it is still running after these.
  pub realtime_loop : (rounds : ℕ) → Exec (World E) Bool
  unfolding realtime_round
  realtime_loop zero = pure false
  realtime_loop (suc rounds) =
      let rest = realtime_loop rounds in
      do
        stopped ← gets (λ w. w.self.realtime_stop)
        if stopped then pure true else do realtime_round; rest

module _ {E : Type 0} where
  unfoldable pub async_start_realtime : World E → World E
  async_start_realtime w =
      if w.self.realtime_task
      then w
      else emit (task_created Task.realtime)
          (update (λ self. record self { realtime_stop = false; realtime_task = true }) w)

  -- `task.cancel()` and the wait for its end, if there is a task
  unfoldable pub async_stop_realtime : World E → World E
  unfolding preempt_listen
  async_stop_realtime w =
      let w' : World E = preempt_listen (update (λ self. record self { realtime_stop = true }) w) in
      if w'.self.realtime_task
      then emit (task_cancelled Task.realtime)
          (update (λ self. record self { realtime_task = false }) w')
      else w'

  unfoldable pub async_start_battery : World E → World E
  async_start_battery w =
      if w.self.battery_task
      then w
      else emit (task_created Task.battery)
          (update (λ self. record self { battery_stop = false; battery_task = true }) w)

  unfoldable pub async_stop_battery : World E → World E
  async_stop_battery w =
      let w' : World E = update (λ self. record self { battery_stop = true }) w in
      if w'.self.battery_task
      then emit (task_cancelled Task.battery)
          (update (λ self. record self { battery_task = false }) w')
      else w'

  unfoldable pub async_start_initial_sync : World E → World E
  async_start_initial_sync w = emit (task_created Task.initial_sync) w
