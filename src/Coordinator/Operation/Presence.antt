-- ===== src/Coordinator/Operation/Presence.antt =====
-- The presence ladder of custom_components/aqara_u200/coordinator.py and the write behind it.
use haos_aqara.Base.{
  ℕ, zero, suc, ◌≡◌, refl, sym, ap, ◌∙◌, Bool, true, false, Option, none, some, arith,
  if◌then◌else◌, ◌==◌, option_eq, bool_eq,
}
use haos_aqara.Const.{presence_poll_seconds, data_presence_window_seconds}
use haos_aqara.Errors.{
  cancelled, library, authentication, bluetooth_unavailable, operation, Result, ok, err, aqara,
  presence_required,
}
use haos_aqara.Exec.{Exec, pure, modify, catch, finally, ◌>>=◌, ◌>>◌}
use haos_aqara.Boundary.{Context, Call}
use haos_aqara.Settings.Data.{ReadName}
use haos_aqara.Coordinator.State.{World, Operation, PressReason, notification_dismissed}
use haos_aqara.Coordinator.Callbacks.{await, emit}
use haos_aqara.Coordinator.Callbacks.Frame.{env-await, result-await}
use haos_aqara.Coordinator.Operation.{
  is_present, poll_presence, poll_and_dismiss, ensure_presence, request_keypad_press,
  presence_attempts, notification_id, require, run_set_operation, on_error, confirm,
}
use haos_aqara.Coordinator.Operation.Outcome.{
  IsStarted, Ended, not_acquired, unreachable, body_ran, serialized-Ended,
}

module _ {E : Type 0} (cx : Context E) where
  -- The last thing that happened behind the contract: the keypad was read, and it was awake.
  pub record JustAwake (w : World E) : Type 0 where
    pub before : E
    pub awake : (cx.client.async_read_front_connection before).0 ≡ ok (some true)
    pub after : w.env ≡ (cx.client.async_read_front_connection before).2

  abbrev AwakeIf : Bool → World E → Type 0
  AwakeIf true w = JustAwake w
  AwakeIf false w = Unit

  -- What a read of the keypad, and a rung of the ladder, say where they come back.
  abbrev Reads : Result Bool × World E → Type 0
  Reads (ok present, w) = AwakeIf present w
  Reads (err e, w) = Unit

  abbrev Grants : Result (Unit {0}) × World E → Type 0
  Grants (ok _, w) = JustAwake w
  Grants (err e, w) = Unit

  read-Reads :
      (w : World E) (q : Result (Option Bool) × World E)
      → await cx cx.client.async_read_front_connection w ≡ q
      → Reads (◌>>=◌ (λ _. q) (λ front. pure (front == some true)) w)
  read-Reads w (err e, u) p = tt
  read-Reads w (ok none, u) p = tt
  read-Reads w (ok (some false), u) p = tt
  read-Reads w (ok (some true), u) p = record {
    before = w.env;
    awake = sym (result-await cx cx.client.async_read_front_connection w) ∙ ap (λ q. q.0) p;
    after = sym (ap (λ q. q.1.env) p) ∙ env-await cx cx.client.async_read_front_connection w;
  }

  is_present-Reads : (w : World E) → Reads (is_present cx w)
  unfolding is_present
  is_present-Reads w = read-Reads w (await cx cx.client.async_read_front_connection w) refl

  -- A present keypad ends the ladder; else the next rung decides.
  rung :
      (q : Result Bool × World E) (m n : Exec (World E) (Unit {0}))
      → Reads q
      → ((u : World E) → JustAwake u → Grants (m u))
      → ((u : World E) → Grants (n u))
      → Grants (◌>>=◌ (λ _. q) (λ present. if present then m else n) q.1)
  rung (err e, u) m n h km kn = tt
  rung (ok true, u) m n h km kn = km u h
  rung (ok false, u) m n h km kn = kn u

  -- What comes first decides nothing.
  after_wait :
      {A : Type 0} (q : Result A × World E) (n : Exec (World E) (Unit {0}))
      → ((u : World E) → Grants (n u))
      → Grants (◌>>◌ (λ _. q) n q.1)
  after_wait (err e, u) n kn = tt
  after_wait (ok a, u) n kn = kn u

  poll_presence-Grants : (attempts : ℕ) (w : World E) → Grants (poll_presence cx attempts w)
  unfolding poll_presence
  poll_presence-Grants zero w = tt
  poll_presence-Grants (suc attempts) w =
      after_wait (await cx (cx.host.sleep presence_poll_seconds) w) _ λ u.
        rung (is_present cx u) (pure tt) (poll_presence cx attempts) (is_present-Reads u) (λ v h. h)
          (poll_presence-Grants attempts)

  dismissed_after :
      (q : Result (Unit {0}) × World E)
      → Grants q
      → Grants (finally (λ _. q) (modify (emit (notification_dismissed (notification_id cx)))) q.1)
  dismissed_after (ok _, u) h = record { before = h.before; awake = h.awake; after = h.after }
  dismissed_after (err e, u) h = tt

  poll_and_dismiss-Grants : (window : ℕ) (w : World E) → Grants (poll_and_dismiss cx window w)
  unfolding poll_and_dismiss
  poll_and_dismiss-Grants window w =
      dismissed_after (poll_presence cx (presence_attempts cx window) w)
        (poll_presence-Grants (presence_attempts cx window) w)

  ensure_presence-Grants :
      (reason : PressReason) (window : ℕ) (w : World E)
      → Grants (ensure_presence cx reason window w)
  unfolding ensure_presence
  ensure_presence-Grants reason window w =
      rung (is_present cx w) (pure tt) _ (is_present-Reads w) (λ v h. h)
        λ u.
          after_wait (request_keypad_press cx reason window u) (poll_and_dismiss cx window)
            (poll_and_dismiss-Grants window)

  -- A gated write, seen from a success of the operation: the body was started, the keypad was then
  -- seen awake, and nothing happened behind the contract before the write was sent and came back.
  pub record Gated {A : Type 0} (op : Operation) (action : Call E A) (reason : PressReason)
      (w : World E) : Type 0 where
    pub start : World E
    pub started : IsStarted cx op w start
    pub at : World E
    pub granted : ensure_presence cx reason data_presence_window_seconds start ≡ (ok tt, at)
    pub just_awake : JustAwake at
    pub written : A
    pub answered : (await cx action at).0 ≡ ok written

  pub caught_ok :
      (q : Result (Unit {0}) × World E) → (catch (λ _. q) (on_error cx) q.1).0 ≡ ok tt → q.0 ≡ ok tt
  unfolding on_error
  caught_ok (ok _, u) h = refl
  caught_ok (err cancelled, u) h = cc
  caught_ok (err (library objects i), u) h = cc
  caught_ok (err (aqara authentication), u) h = cc
  caught_ok (err (aqara bluetooth_unavailable), u) h = cc
  caught_ok (err (aqara operation), u) h = cc
  caught_ok (err (aqara presence_required), u) h = cc

  wrote :
      {A : Type 0} (op : Operation) (action : Call E A) (reason : PressReason) (w v u : World E)
      (q : Result A × World E) (rest : Exec (World E) (Unit {0}))
      → IsStarted cx op w v
      → ensure_presence cx reason data_presence_window_seconds v ≡ (ok tt, u)
      → JustAwake u
      → await cx action u ≡ q
      → (◌>>=◌ (λ _. q) (λ _. rest) u).0 ≡ ok tt
      → Gated op action reason w
  wrote op action reason w v u (ok a, x) rest s g j p h = record {
    start = v;
    started = s;
    at = u;
    granted = g;
    just_awake = j;
    written = a;
    answered = ap (λ r. r.0) p;
  }
  wrote op action reason w v u (err e, x) rest s g j p h = cc

  granted :
      {A : Type 0} (op : Operation) (action : Call E A) (reason : PressReason) (w v : World E)
      (rest : Exec (World E) (Unit {0})) (q : Result (Unit {0}) × World E)
      → IsStarted cx op w v
      → ensure_presence cx reason data_presence_window_seconds v ≡ q
      → Grants q
      → (◌>>◌ (λ _. q) (◌>>=◌ (await cx action) (λ _. rest)) v).0 ≡ ok tt
      → Gated op action reason w
  granted op action reason w v rest (ok tt, u) s p g h =
      wrote op action reason w v u (await cx action u) rest s p g refl h
  granted op action reason w v rest (err e, u) s p g h = cc

  Ended-Gated :
      {A : Type 0} (op : Operation) (action : Call E A) (reason : PressReason)
      (post_read : Option ReadName) (w : World E) (q : Result (Unit {0}) × World E)
      → Ended cx op
          (ensure_presence cx reason data_presence_window_seconds
            >> (◌>>=◌ (await cx action) (λ _. confirm cx post_read)))
          w
          q
      → q.0 ≡ ok tt
      → Gated op action reason w
  Ended-Gated op action reason post_read w q (not_acquired e p r) h = absurd (ground arith)
  Ended-Gated op action reason post_read w q (unreachable u r p e) h = absurd (ground arith)
  Ended-Gated op action reason post_read w q (body_ran v s e) h =
      granted op action reason w v (confirm cx post_read)
        (ensure_presence cx reason data_presence_window_seconds v) s refl
        (ensure_presence-Grants reason data_presence_window_seconds v)
        (caught_ok _ (sym (ap (λ r. r.0) e) ∙ h))

  -- If a settings write that requires presence succeeds, the keypad was seen awake right before the
  -- write was sent, with the lock held and the operation published.
  pub run_set_operation-Gated :
      {A : Type 0} (op : Operation) (action : Call E A) (reason : PressReason)
      (post_read : Option ReadName) (w : World E)
      → (run_set_operation cx op action (some reason) post_read w).0 ≡ ok tt
      → Gated op action reason w
  unfolding run_set_operation require
  run_set_operation-Gated op action reason post_read w =
      Ended-Gated op action reason post_read w
        (run_set_operation cx op action (some reason) post_read w) (serialized-Ended cx op _ w)
