-- ===== src/Coordinator/Operation/Notifications.antt =====
-- The notification of the presence ladder of custom_components/aqara_u200/coordinator.py.
use haos_aqara.Base.{
  ℕ, zero, suc, String, Text, ◌≡◌, refl, sym, subst, ap, ◌∙◌, ◌⊎◌, inl, inr, Bool, true, false,
  Option, none, some, List, [], ◌∷◌, ◌++◌, if◌then◌else◌, ◌==◌, list_eq, nat_eq, list_beq_refl,
  eq_of_list_beq, Bool-cases, false≢true,
}
use haos_aqara.Const.{presence_poll_seconds}
use haos_aqara.Errors.{Result, ok, err, aqara, cancelled, presence_required}
use haos_aqara.Bluetooth.{BluetoothState}
use haos_aqara.Boundary.{LockEvent}
use haos_aqara.Exec.{pure, modify, ◌>>◌}
use haos_aqara.Exec.Keeps.{Keeps, Keeps-raise, Keeps-bind, Keeps-if, Keeps-pure, keeps_rules}
use haos_aqara.Boundary.{
  Context, Call, Callback, advertisement, lock_event, enrol_report, stop_battery, stop_realtime,
}
use haos_aqara.Coordinator.State.{
  World, Effect, PressReason, published, notification_created, notification_dismissed,
  fired_keypad_press_required, fired_lock_event, fired_enrol_progress,
}
use haos_aqara.Coordinator.Callbacks.{await, emit, publish, is_notable, run_callback}
use haos_aqara.Coordinator.Callbacks.Frame.{Keeps-await}
use haos_aqara.Coordinator.Operation.{
  is_present, poll_presence, ensure_presence, press_switch, ignore_error, keypad_wake_switch,
  request_keypad_press, presence_attempts, poll_and_dismiss, notification_id,
}

-- Whether a notification with the id `k` is shown after an effect: what is created under an id replaces
-- what was shown under it, and what is dismissed is gone.
unfoldable pub after_effect : Text → Bool → Effect → Bool
after_effect k shown (notification_created id) = if k == id then true else shown
after_effect k shown (notification_dismissed id) = if k == id then false else shown
after_effect k shown _ = shown

pub shown_after : Text → Bool → List Effect → Bool
shown_after k shown [] = shown
shown_after k shown (e ∷ effects) = shown_after k (after_effect k shown e) effects

-- Whether one is shown after all these effects, with none at first.
unfoldable pub is_shown : Text → List Effect → Bool
unfolding shown_after
is_shown k effects = shown_after k false effects

shown_after-append :
    (k : Text) (shown : Bool) (effects : List Effect) (e : Effect)
    → shown_after k shown (effects ++ e ∷ []) ≡ after_effect k (shown_after k shown effects) e
unfolding shown_after
shown_after-append k shown [] e = refl
shown_after-append k shown (x ∷ effects) e = shown_after-append k (after_effect k shown x) effects e

is_shown-append :
    (k : Text) (effects : List Effect) (e : Effect)
    → is_shown k (effects ++ e ∷ []) ≡ after_effect k (is_shown k effects) e
unfolding is_shown
is_shown-append k effects e = shown_after-append k false effects e

module _ (k : Text) (P : Bool → Type 0) where
  append-Shown :
      (effects : List Effect) (e : Effect)
      → after_effect k (is_shown k effects) e ≡ is_shown k effects
      → P (is_shown k effects)
      → P (is_shown k (effects ++ e ∷ []))
  append-Shown effects e same h = subst P (sym (is_shown-append k effects e ∙ same)) h

module _ {E : Type 0} (cx : Context E) (k : Text) (P : Bool → Type 0) where
  publish-Shown :
      (b : Bool) (state : BluetoothState) (w : World E)
      → P (is_shown k w.effects)
      → P (is_shown k (if b then publish cx state w else w).effects)
  unfolding publish after_effect
  publish-Shown true state w h = append-Shown k P w.effects (published _) refl h
  publish-Shown false state w h = h

  fire-Shown :
      (b : Bool) (event : LockEvent) (w : World E)
      → P (is_shown k w.effects)
      → P (is_shown k (if b then emit (fired_lock_event event) w else w).effects)
  unfolding after_effect
  fire-Shown true event w h = append-Shown k P w.effects (fired_lock_event event) refl h
  fire-Shown false event w h = h

  run_callback-Shown :
      (c : Callback) (w : World E)
      → P (is_shown k w.effects)
      → P (is_shown k (run_callback cx c w).effects)
  unfolding run_callback after_effect
  run_callback-Shown (advertisement ad) w h = append-Shown k P w.effects (published _) refl h
  run_callback-Shown (enrol_report report) w h =
      append-Shown k P w.effects (fired_enrol_progress report) refl h
  run_callback-Shown stop_battery w h = h
  run_callback-Shown stop_realtime w h = h
  run_callback-Shown (lock_event event) w h =
      publish-Shown _ _ _ (fire-Shown (is_notable event) event _ h)

  await-Shown :
      {A : Type 0} (call : Call E A) → Keeps (λ w. P (is_shown k w.effects)) (await cx call)
  await-Shown call =
      Keeps-await cx (λ w. P (is_shown k w.effects)) run_callback-Shown (λ w env h. h) call

  is_present-Shown : Keeps (λ w. P (is_shown k w.effects)) (is_present cx)
  unfolding is_present
  is_present-Shown = search (keeps_rules, await-Shown)

  poll_presence-Shown : (n : ℕ) → Keeps (λ w. P (is_shown k w.effects)) (poll_presence cx n)
  unfolding poll_presence
  poll_presence-Shown zero = Keeps-raise (aqara presence_required)
  poll_presence-Shown (suc n) =
      Keeps-bind (await cx (cx.host.sleep presence_poll_seconds)) _ (await-Shown _) λ _.
        Keeps-bind (is_present cx) _ is_present-Shown λ present.
          Keeps-if present (pure tt) (poll_presence cx n) (Keeps-pure tt) (poll_presence-Shown n)

  press_switch-Shown :
      (switch : Option String) → Keeps (λ w. P (is_shown k w.effects)) (press_switch cx switch)
  unfolding press_switch
  press_switch-Shown none = Keeps-pure tt
  press_switch-Shown (some switch) = search (keeps_rules, await-Shown, ignore_error-Shown)
    where
      ignore_error-Shown :
          (r : Result (Unit {0})) → Keeps (λ w. P (is_shown k w.effects)) (ignore_error cx r)
      ignore_error-Shown (err cancelled) = Keeps-raise cancelled
      ignore_error-Shown _ = Keeps-pure tt

module _ {E : Type 0} (cx : Context E) (k : Text) where
  -- A notification is as it was before, or it is the one of the coordinator and it is gone.
  abbrev pub Ended : (before after : Bool) → Type 0
  Ended before after = (after ≡ before) ⊎ ((k ≡ notification_id cx) × (after ≡ false))

  -- The same while the keypad is waited for: the one of the coordinator may be shown.
  Between : (before after : Bool) → Type 0
  Between before after = (after ≡ before) ⊎ (k ≡ notification_id cx)

  created-Between :
      (before : Bool) (u : World E)
      → Ended before (is_shown k u.effects)
      → Between before (is_shown k (emit (notification_created (notification_id cx)) u).effects)
  unfolding Between after_effect
  created-Between before u (inr (same, e)) = inr same
  created-Between before u (inl h) = elim (Bool-cases (k == notification_id cx)) [
    | inl e ↦ inr (eq_of_list_beq k (notification_id cx) e)
    | inr e ↦ inl (is_shown-append k u.effects _ ∙ rw e h)
  ]

  dismissed-Ended :
      (before : Bool) (u : World E)
      → Between before (is_shown k u.effects)
      → Ended before (is_shown k (emit (notification_dismissed (notification_id cx)) u).effects)
  unfolding Between after_effect
  dismissed-Ended before u h = elim (Bool-cases (k == notification_id cx)) [
    | inl e ↦
        inr (eq_of_list_beq k (notification_id cx) e, is_shown-append k u.effects _ ∙ rw e refl)
    | inr e ↦ elim h [
      | inl same ↦ inl (is_shown-append k u.effects _ ∙ rw e same)
      | inr own ↦ absurd (
          false≢true
            (sym e ∙ ap (λ id. id == notification_id cx) own ∙ list_beq_refl (notification_id cx)))
    ]
  ]

  module _ (before : Bool) where
    poll_and_dismiss-Ended :
        (window : ℕ) (u : World E)
        → Between before (is_shown k u.effects)
        → Ended before (is_shown k (poll_and_dismiss cx window u).1.effects)
    unfolding poll_and_dismiss
    poll_and_dismiss-Ended window u h =
        dismissed-Ended before (poll_presence cx (presence_attempts cx window) u).1
          ((poll_presence-Shown cx k (Between before) (presence_attempts cx window)).at u h)

    asked-Ended :
        (window : ℕ) (q : Result (Unit {0}) × World E)
        → Ended before (is_shown k q.1.effects)
        → Ended before (
            is_shown k
              (◌>>◌
                (◌>>◌ (λ _. q) (modify (emit (notification_created (notification_id cx)))))
                (poll_and_dismiss cx window)
                q.1).1.effects)
    asked-Ended window (err e, u) h = h
    asked-Ended window (ok _, u) h =
        poll_and_dismiss-Ended window (emit (notification_created (notification_id cx)) u)
          (created-Between before u h)

    ask-Ended :
        (reason : PressReason) (window : ℕ) (u : World E)
        → Ended before (is_shown k u.effects)
        → Ended before (
            is_shown k
              (◌>>◌
                (request_keypad_press cx reason window)
                (poll_and_dismiss cx window)
                u).1.effects)
    unfolding request_keypad_press after_effect
    ask-Ended reason window u h =
        asked-Ended window
          (press_switch cx (keypad_wake_switch cx)
            (emit (fired_keypad_press_required reason window) u))
          ((press_switch-Shown cx k (Ended before) (keypad_wake_switch cx)).at _ (
            append-Shown k (Ended before) u.effects (fired_keypad_press_required reason window) refl
              h))

    ladder-Ended :
        (reason : PressReason) (window : ℕ)
        → Keeps (λ w. Ended before (is_shown k w.effects)) (ensure_presence cx reason window)
    unfolding ensure_presence
    ladder-Ended reason window =
        Keeps-bind (is_present cx) _ (is_present-Shown cx k (Ended before)) λ present.
          Keeps-if present (pure tt) _ (Keeps-pure tt) (record { at = ask-Ended reason window })

  -- However the presence ladder ends, a notification under any id is as it was before, but that the
  -- notification under the id of the coordinator may be gone: the ladder leaves none shown that was not.
  pub ensure_presence-Shown :
      (reason : PressReason) (window : ℕ) (w : World E)
      → Ended (is_shown k w.effects) (is_shown k (ensure_presence cx reason window w).1.effects)
  ensure_presence-Shown reason window w =
      (ladder-Ended (is_shown k w.effects) reason window).at w (inl refl)
