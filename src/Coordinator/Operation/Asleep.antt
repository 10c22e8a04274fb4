-- ===== src/Coordinator/Operation/Asleep.antt =====
-- The presence ladder of custom_components/aqara_u200/coordinator.py with a keypad that stays asleep.
use haos_aqara.Base.{
  ℕ, zero, suc, ◌+◌, ◌/◌, max, ◌≡◌, refl, ap, ◌∙◌, Bool, true, false, Option, none, some, String,
  arith, if◌then◌else◌, ◌==◌, option_eq, bool_eq,
}
use haos_aqara.Const.{presence_poll_seconds}
use haos_aqara.Errors.{Result, ok, err, aqara, presence_required}
use haos_aqara.Exec.{Exec, pure, modify, attempt, finally, ◌>>=◌}
use haos_aqara.Boundary.{Context, Call}
use haos_aqara.Coordinator.State.{
  World, PressReason, notification_created, notification_dismissed, fired_keypad_press_required,
}
use haos_aqara.Coordinator.Callbacks.{await, emit}
use haos_aqara.Coordinator.Callbacks.Frame.{env-await, result-await}
use haos_aqara.Coordinator.Operation.{
  is_present, poll_presence, poll_and_dismiss, ensure_presence, press_switch, ignore_error,
  request_keypad_press, presence_attempts, keypad_wake_switch, notification_id,
}

-- A world where the keypad answers every read and is never awake, where a sleep and the service call
-- come back, and where `reads` counts the reads of the keypad.
pub record StaysAsleep {E : Type 0} (cx : Context E) : Type 0 where
  pub reads : E → ℕ
  pub answer : E → Option Bool
  pub answered : (e : E) → (cx.client.async_read_front_connection e).0 ≡ ok (answer e)
  pub asleep : (e : E) → (answer e == some true) ≡ false
  pub counted : (e : E) → reads (cx.client.async_read_front_connection e).2 ≡ reads e + 1
  pub slept : (n : ℕ) (e : E) → (cx.host.sleep n e).0 ≡ ok tt
  pub sleep_counted : (n : ℕ) (e : E) → reads (cx.host.sleep n e).2 ≡ reads e
  pub pressed : (s : String) (e : E) → (cx.host.turn_on_switch s e).0 ≡ ok tt
  pub press_counted : (s : String) (e : E) → reads (cx.host.turn_on_switch s e).2 ≡ reads e

module _ {E : Type 0} (cx : Context E) (a : StaysAsleep cx) where
  -- A run that comes back with `r` after `n` reads.
  pub record Ends {A : Type 0} (r : Result A) (n : ℕ) (w : World E) (q : Result A × World E)
      : Type 0 where
    pub result : q.0 ≡ r
    pub reads : a.reads q.1.env ≡ a.reads w.env + n

  then_Ends :
      {A B : Type 0} (x : A) (r : Result B) (m n : ℕ) (w : World E) (q : Result A × World E)
      (f : A → Exec (World E) B)
      → Ends (ok x) m w q
      → ((u : World E) → Ends r n u (f x u))
      → Ends r (m + n) w (◌>>=◌ (λ _. q) f w)
  then_Ends x r m n w (ok y, u) f h k =
      let e : y ≡ x = ground (arith, h.result) in
      rw e (record { result = (k u).result; reads = omega (arith, (k u).reads, h.reads) })
  then_Ends x r m n w (err e, u) f h k = cc h.result

  await-Ends :
      {A : Type 0} (call : Call E A) (x : A) (n : ℕ) (w : World E)
      → (call w.env).0 ≡ ok x
      → a.reads (call w.env).2 ≡ a.reads w.env + n
      → Ends (ok x) n w (await cx call w)
  await-Ends call x n w p c = record {
    result = result-await cx call w ∙ p;
    reads = ap a.reads (env-await cx call w) ∙ c;
  }

  recount :
      {A : Type 0} {r : Result A} {m n : ℕ} {w : World E} {q : Result A × World E}
      → m ≡ n
      → Ends r m w q
      → Ends r n w q
  recount e h = record { result = h.result; reads = omega (arith, h.reads, e) }

  here : {A : Type 0} (r : Result A) (w : World E) → Ends r 0 w (r, w)
  here r w = record { result = refl; reads = omega arith }

  is_present-Ends : (w : World E) → Ends (ok false) 1 w (is_present cx w)
  unfolding is_present
  is_present-Ends w = recount refl (
      then_Ends (a.answer w.env) (ok false) 1 0 w (await cx cx.client.async_read_front_connection w)
        (λ front. pure (front == some true))
        (await-Ends cx.client.async_read_front_connection (a.answer w.env) 1 w (a.answered w.env)
          (a.counted w.env))
        (λ u. record { result = ap ok (a.asleep w.env); reads = omega arith }))

  poll_presence-Ends :
      (attempts : ℕ) (w : World E)
      → Ends (err (aqara presence_required)) attempts w (poll_presence cx attempts w)
  unfolding poll_presence
  poll_presence-Ends zero w = here (err (aqara presence_required)) w
  poll_presence-Ends (suc attempts) w = recount (omega arith) (
      then_Ends tt _ 0 (1 + attempts) w (await cx (cx.host.sleep presence_poll_seconds) w) _
        (await-Ends (cx.host.sleep presence_poll_seconds) tt 0 w
          (a.slept presence_poll_seconds w.env)
          (omega (arith, a.sleep_counted presence_poll_seconds w.env)))
        λ u.
          then_Ends false _ 1 attempts u (is_present cx u)
            (λ present. if present then pure tt else poll_presence cx attempts) (is_present-Ends u)
            (poll_presence-Ends attempts))

  finally-Ends :
      (r : Result (Unit {0})) (n : ℕ) (w : World E) (q : Result (Unit {0}) × World E)
      → Ends r n w q
      → Ends r n w
          (finally (λ _. q) (modify (emit (notification_dismissed (notification_id cx)))) w)
  finally-Ends r n w q h = record { result = h.result; reads = h.reads }

  ignore_error-Ends :
      (w : World E) (q : Result (Unit {0}) × World E)
      → Ends (ok tt) 0 w q
      → Ends (ok tt) 0 w (◌>>=◌ (attempt (λ _. q)) (ignore_error cx) w)
  unfolding ignore_error
  ignore_error-Ends w (ok x, u) h = record { result = refl; reads = h.reads }
  ignore_error-Ends w (err e, u) h = cc h.result

  press_switch-Ends :
      (switch : Option String) (w : World E) → Ends (ok tt) 0 w (press_switch cx switch w)
  unfolding press_switch
  press_switch-Ends none w = here (ok tt) w
  press_switch-Ends (some switch) w =
      ignore_error-Ends w (await cx (cx.host.turn_on_switch switch) w) (
        await-Ends (cx.host.turn_on_switch switch) tt 0 w (a.pressed switch w.env)
          (omega (arith, a.press_counted switch w.env)))

  request_keypad_press-Ends :
      (reason : PressReason) (window : ℕ) (w : World E)
      → Ends (ok tt) 0 w (request_keypad_press cx reason window w)
  unfolding request_keypad_press
  request_keypad_press-Ends reason window w = recount refl (
      then_Ends tt (ok tt) 0 0 w
        (press_switch cx (keypad_wake_switch cx)
          (emit (fired_keypad_press_required reason window) w))
        (λ _. modify (emit (notification_created (notification_id cx))))
        (let h =
            press_switch-Ends (keypad_wake_switch cx)
              (emit (fired_keypad_press_required reason window) w) in
          record { result = h.result; reads = h.reads })
        (λ u. record { result = refl; reads = omega arith }))

  -- With a keypad that stays asleep, the presence ladder ends with an
  -- `AqaraU200PresenceRequiredError` after one read more than `max(1, window / 3)`.
  pub ensure_presence-Ends :
      (reason : PressReason) (window : ℕ) (w : World E)
      → Ends
          (err (aqara presence_required))
          (1 + max 1 (window / 3))
          w
          (ensure_presence cx reason window w)
  unfolding ensure_presence poll_and_dismiss presence_attempts
  ensure_presence-Ends reason window w =
      then_Ends false _ 1 (presence_attempts cx window) w (is_present cx w) _ (is_present-Ends w)
        λ u. recount (omega arith) (
          then_Ends tt _ 0 (presence_attempts cx window) u (request_keypad_press cx reason window u)
            _ (request_keypad_press-Ends reason window u)
            λ v.
              finally-Ends _ (presence_attempts cx window) v
                (poll_presence cx (presence_attempts cx window) v)
                (poll_presence-Ends (presence_attempts cx window) v))
