-- ===== src/Coordinator/Operation.antt =====
-- The serialized operations of custom_components/aqara_u200/coordinator.py: `_async_run_operation`,
-- `_async_run_set_operation` and the presence ladder.
pub mod Settles
pub mod Outcome
pub mod Results
pub mod Reread
pub mod Noted
pub mod Notifications
pub mod Presence
pub mod Asleep
use haos_aqara.Base.{
  ℕ, zero, suc, ◌/◌, max, Bool, true, false, not, Option, none, some, String, Text, codes, ◌++◌,
  ◌==◌, option_eq, bool_eq, string_eq, if◌then◌else◌,
}
use haos_aqara.Const.{data_presence_window_seconds, presence_poll_seconds}
use haos_aqara.Errors.{
  Raised, aqara, cancelled, library, bluetooth_unavailable, authentication, operation,
  presence_required, Result, err,
}
use haos_aqara.Exec.{Exec, pure, raise, gets, modify, attempt, catch, finally, ◌>>=◌, ◌>>◌}
use haos_aqara.Boundary.{Call, Context}
use haos_aqara.Settings.Data.{ReadName, Value}
use haos_aqara.Coordinator.State.{
  Coordinator, Operation, is_lock, World, PressReason, fired_keypad_press_required,
  notification_created, notification_dismissed, reauth_started,
}
use haos_aqara.Coordinator.Callbacks.{emit, update, preempt_listen, publish, await}
use haos_aqara.Coordinator.Read.{read_one, apply_read, with_operation_lock, note_error}

-- `observed if observed is not None else operation == "lock"`
unfoldable pub set_locked : Operation → Option Bool → Coordinator → Coordinator
set_locked op (some observed) self = record self { is_locked = some observed }
set_locked op none self = record self { is_locked = some (is_lock op) }

module _ {E : Type 0} where
  unfoldable pub apply_value : (name : ReadName) → Option (Value name) → World E → World E
  apply_value name none w = w
  apply_value name (some value) w = update (λ self. (apply_read name value self).0) w

module _ {E : Type 0} (cx : Context E) where
  -- `_keypad_wake_switch`: an empty text counts as no switch.
  unfoldable pub keypad_wake_switch : Option String
  keypad_wake_switch = elim cx.entry.keypad_wake_switch [
    | none ↦ none
    | some switch ↦ if switch == "" then none else some switch
  ]

  -- The `except Exception` around the service call.
  unfoldable pub ignore_error : Result (Unit {0}) → Exec (World E) Unit
  ignore_error (err cancelled) = raise cancelled
  ignore_error _ = pure tt

  unfoldable pub press_switch : Option String → Exec (World E) Unit
  unfolding ignore_error
  press_switch none = pure tt
  press_switch (some switch) = do
    outcome ← attempt (await cx (cx.host.turn_on_switch switch))
    ignore_error outcome

  -- `f"{DOMAIN}_keypad_{self._entry.entry_id}"`, the id of every notification of the coordinator: what is
  -- created under it replaces what was shown.
  unfoldable pub notification_id : Text
  notification_id = codes "aqara_u200_keypad_" ++ codes cx.entry.entry_id

  -- `_async_request_keypad_press`
  unfoldable pub request_keypad_press : PressReason → ℕ → Exec (World E) Unit
  unfolding keypad_wake_switch press_switch notification_id
  request_keypad_press reason window = do
    modify (emit (fired_keypad_press_required reason window))
    press_switch keypad_wake_switch
    modify (emit (notification_created notification_id))

  -- `await self.client.async_read_front_connection() is True`
  unfoldable pub is_present : Exec (World E) Bool
  is_present = do front ← await cx cx.client.async_read_front_connection; pure (front == some true)

  -- The `for _ in range(attempts)` loop, and the `raise` behind it.
  pub poll_presence : ℕ → Exec (World E) Unit
  unfolding is_present
  poll_presence zero = raise (aqara presence_required)
  poll_presence (suc attempts) =
      let rest = poll_presence attempts in
      do
        await cx (cx.host.sleep presence_poll_seconds)
        present ← is_present
        if present then pure tt else rest

  -- `max(1, int(window / PRESENCE_POLL_SECONDS))`
  unfoldable pub presence_attempts : ℕ → ℕ
  presence_attempts window = max 1 (window / presence_poll_seconds)

  -- The `try` of `_async_ensure_presence` with its `finally`.
  unfoldable pub poll_and_dismiss : ℕ → Exec (World E) Unit
  unfolding poll_presence presence_attempts notification_id
  poll_and_dismiss window =
      finally (poll_presence (presence_attempts window))
        (modify (emit (notification_dismissed notification_id)))

  -- `_async_ensure_presence`
  unfoldable pub ensure_presence : PressReason → ℕ → Exec (World E) Unit
  unfolding is_present request_keypad_press poll_and_dismiss
  ensure_presence reason window = do
    present ← is_present
    if present then pure tt else do request_keypad_press reason window; poll_and_dismiss window

  -- The fields that are set before the `try`, and the snapshot with them.
  unfoldable pub begin : Operation → World E → World E
  begin op w = publish cx w.bluetooth (
      update
        (λ self. record self {
          operation_in_progress = true;
          last_operation = some op;
          last_error_type = none;
        })
        w)

  -- The `finally` clause.
  unfoldable pub finish : World E → World E
  finish w =
      publish cx w.bluetooth (update (λ self. record self { operation_in_progress = false }) w)

  -- The `except` clauses.
  unfoldable pub on_error : {A : Type 0} → Raised → Exec (World E) A
  on_error cancelled = raise cancelled
  on_error (aqara authentication) = do
    modify (λ w. emit reauth_started (note_error (aqara authentication) w))
    raise (aqara authentication)
  on_error (aqara e) = do modify (note_error (aqara e)); raise (aqara e)
  on_error (library objects i) = do modify (note_error (library objects i)); raise (aqara operation)

  -- From the fields that are set before the `try` to its `finally`.
  unfoldable pub run_body : Operation → Exec (World E) Unit → Exec (World E) Unit
  unfolding begin finish on_error
  run_body op body = do modify (begin op); finally (catch body on_error) (modify finish)

  -- What happens under the lock: refused if the lock is not reachable.
  unfoldable pub locked_body : Operation → Exec (World E) Unit → Exec (World E) Unit
  unfolding run_body
  locked_body op body = do
    state ← gets (λ w. w.bluetooth)
    if not state.reachable then raise (aqara bluetooth_unavailable) else run_body op body

  -- What the three kinds of operations share: preempt the listen, take the lock, run the body.
  unfoldable pub serialized : Operation → Exec (World E) Unit → Exec (World E) Unit
  unfolding locked_body with_operation_lock
  serialized op body = do modify preempt_listen; with_operation_lock cx (locked_body op body)

  -- `_async_run_operation`
  unfoldable pub run_operation : Operation → Call E (Option Bool) → Exec (World E) Unit
  unfolding serialized set_locked
  run_operation op action =
      serialized op (do observed ← await cx action; modify (update (set_locked op observed)))

  -- `if require_presence is not None: ...`
  unfoldable pub require : Option PressReason → ℕ → Exec (World E) Unit
  unfolding ensure_presence
  require none window = pure tt
  require (some reason) window = ensure_presence reason window

  -- `if post_read is not None: ...`
  unfoldable pub confirm : Option ReadName → Exec (World E) Unit
  unfolding apply_value
  confirm none = pure tt
  confirm (some name) = do value ← await cx (read_one cx name); modify (apply_value name value)

  -- `_async_run_set_operation`, with the default window
  unfoldable pub run_set_operation :
      {A : Type 0}
      → Operation
      → Call E A
      → Option PressReason
      → Option ReadName
      → Exec (World E) Unit
  unfolding serialized require confirm
  run_set_operation op action require_presence post_read = serialized op (do
    require require_presence data_presence_window_seconds
    _ ← await cx action
    confirm post_read)
