-- ===== src/Coordinator/Refresh/Sparing.antt =====
-- How often a refresh of custom_components/aqara_u200/coordinator.py reads from the lock.
use haos_aqara.Base.{
  ℕ, zero, suc, ◌+◌, ◌≤◌, ◌≡◌, refl, ap, Bool, true, false, not, Option, none, some, List, [], ◌∷◌,
  sym, ◌∙◌, arith, if◌then◌else◌, ◌==◌, nat_eq, eq_of_nat_beq, Bool-cases, inl, inr, ◌⊎◌,
}
use haos_aqara.Const.{refresh_gap_seconds}
use haos_aqara.Errors.{Result, ok, err, aqara, library, cancelled, authentication}
use haos_aqara.Exec.{Exec, pure, gets, modify, attempt, finally, when, ◌>>=◌, ◌>>◌}
use haos_aqara.Boundary.{Call, Context}
use haos_aqara.Settings.Data.{
  ReadName, Value, state, battery, door_type, assist_turn, pull_spring, auxiliary_locking,
  auto_lockup_relock_delay, auto_lock_on_close_delay, verify_fail_time, alert_delay, system_volume,
  language, alert_volume, alarm_volume, credentials, unrecognised,
}
use haos_aqara.Coordinator.State.{Coordinator, World}
use haos_aqara.Coordinator.Callbacks.{await, publish, preempt_listen}
use haos_aqara.Coordinator.Callbacks.Frame.{env-await}
use haos_aqara.Coordinator.Read.{
  note_error, read_one, set_lock, is_unread, with_operation_lock, apply_and_publish, finish_read,
  do_read,
}
use haos_aqara.Coordinator.Read.Applied.{slot}
use haos_aqara.Coordinator.Refresh.{
  refresh_order, unread_names, refresh_pass, retry_pass, refresh_all,
}

nth : ℕ → List ReadName → ReadName
nth zero (name ∷ names) = name
nth (suc n) (name ∷ names) = nth n names
nth _ [] = unrecognised

named : ℕ → ReadName
unfolding nth refresh_order
named n = nth n refresh_order

-- The name of the value that is read under a name.
abbrev pub read_as : ReadName → ReadName
read_as unrecognised = pull_spring
read_as name = name

named-slot : (name : ReadName) → named (slot name) ≡ read_as name
unfolding named nth refresh_order
named-slot state = refl
named-slot battery = refl
named-slot door_type = refl
named-slot assist_turn = refl
named-slot pull_spring = refl
named-slot auxiliary_locking = refl
named-slot auto_lockup_relock_delay = refl
named-slot auto_lock_on_close_delay = refl
named-slot verify_fail_time = refl
named-slot alert_delay = refl
named-slot system_volume = refl
named-slot language = refl
named-slot alert_volume = refl
named-slot alarm_volume = refl
named-slot credentials = refl
named-slot unrecognised = refl

is_unread-read_as :
    (name : ReadName) (self : Coordinator)
    → (is_unread name self ≡ is_unread (read_as name) self) ⊎ (is_unread name self ≡ false)
unfolding is_unread
is_unread-read_as unrecognised self = inr refl
is_unread-read_as _ self = inl refl

-- Whether a read under `name` is one of the value of `m`, as a number.
unfoldable pub once : (m name : ReadName) → ℕ
once m name = if slot m == slot name then 1 else 0

pub times : ReadName → List ReadName → ℕ
unfolding once
times m [] = 0
times m (name ∷ names) = once m name + times m names

times-refresh_order : (m : ReadName) → times m refresh_order ≤ 1
unfolding times once refresh_order
times-refresh_order state = omega arith
times-refresh_order battery = omega arith
times-refresh_order door_type = omega arith
times-refresh_order assist_turn = omega arith
times-refresh_order pull_spring = omega arith
times-refresh_order auxiliary_locking = omega arith
times-refresh_order auto_lockup_relock_delay = omega arith
times-refresh_order auto_lock_on_close_delay = omega arith
times-refresh_order verify_fail_time = omega arith
times-refresh_order alert_delay = omega arith
times-refresh_order system_volume = omega arith
times-refresh_order language = omega arith
times-refresh_order alert_volume = omega arith
times-refresh_order alarm_volume = omega arith
times-refresh_order credentials = omega arith
times-refresh_order unrecognised = omega arith

-- One for a value that is missing, and none for one that is there.
abbrev pub if_unread : ReadName → Coordinator → ℕ
if_unread m self = if is_unread (read_as m) self then 1 else 0

-- The names that are read again: a name once for each time it is in the list, if its value is missing.
times-unread_names :
    (m : ReadName) (order : List ReadName) (self : Coordinator)
    → times m (unread_names order self) ≤ (if is_unread (read_as m) self then times m order else 0)
unfolding unread_names times once
times-unread_names m [] self = ground arith
times-unread_names m (name ∷ order) self =
    let rest = times-unread_names m order self in
    elim (Bool-cases (slot m == slot name)) [
      | inl e ↦
          let same : read_as name ≡ read_as m =
            sym (named-slot name)
            ∙ ap named (sym (eq_of_nat_beq (slot m) (slot name) e))
            ∙ named-slot m in
          elim (is_unread-read_as name self) [
            | inl alike ↦
                let told = alike ∙ ap (λ n. is_unread n self) same in
                rw (told, e) (ground (arith, e, rest))
            | inr known ↦ rw (known, e) (ground (arith, e, rest))
          ]
      | inr e ↦ rw e (ground (arith, e, rest))
    ]

-- A counter of the reads of one value behind the contract: a read under its name counts one at most,
-- and neither a read under another name nor a wait for the operation lock nor a sleep counts.
pub record Meter {E : Type 0} (cx : Context E) (m : ReadName) : Type 0 where
  pub reads : E → ℕ
  pub counted : (name : ReadName) (e : E) → reads (read_one cx name e).2 ≤ once m name + reads e
  pub acquire_free : (e : E) → reads (cx.host.acquire e).2 ≤ reads e
  pub sleep_free : (seconds : ℕ) (e : E) → reads (cx.host.sleep seconds e).2 ≤ reads e

module _ {E : Type 0} (cx : Context E) (m : ReadName) (meter : Meter cx m) where
  -- The coroutine reads the value `n` times at most.
  record Costs {A : Type 0} (n : ℕ) (body : Exec (World E) A) : Type 0 where
    at : (w : World E) → meter.reads (body w).1.env ≤ n + meter.reads w.env

  Costs-le : {A : Type 0} (a b : ℕ) (m : Exec (World E) A) → a ≤ b → Costs a m → Costs b m
  Costs-le a b m le h = record { at = λ w. omega (arith, le, h.at w) }

  Costs-modify :
      (change : World E → World E)
      → ((w : World E) → (change w).env ≡ w.env)
      → Costs 0 (modify change)
  Costs-modify change same = record { at = λ w. omega (arith, ap meter.reads (same w)) }

  Costs-gets : {A : Type 0} (read : World E → A) → Costs 0 (gets read)
  Costs-gets read = record { at = λ w. omega arith }

  Costs-pure : {A : Type 0} (value : A) → Costs 0 (pure {S = World E} value)
  Costs-pure value = record { at = λ w. omega arith }

  Costs-await :
      {A : Type 0} (n : ℕ) (call : Call E A)
      → ((e : E) → meter.reads (call e).2 ≤ n + meter.reads e)
      → Costs n (await cx call)
  Costs-await n call h = record {
    at = λ w. omega (arith, ap meter.reads (env-await cx call w), h w.env);
  }

  bound :
      {A B : Type 0} (b : ℕ) (end : Result A × World E) (rest : A → Exec (World E) B)
      → ((value : A) → Costs b (rest value))
      → meter.reads (◌>>=◌ (λ _. end) rest end.1).1.env ≤ b + meter.reads end.1.env
  bound b (ok value, now) rest h = (h value).at now
  bound b (err e, now) rest h = omega arith

  Costs-bind :
      {A B : Type 0} (a b : ℕ) (m : Exec (World E) A) (rest : A → Exec (World E) B)
      → Costs a m
      → ((value : A) → Costs b (rest value))
      → Costs (a + b) (m >>= rest)
  Costs-bind a b m rest h k = record { at = λ w. omega (arith, h.at w, bound b (m w) rest k) }

  Costs-attempt : {A : Type 0} (a : ℕ) (m : Exec (World E) A) → Costs a m → Costs a (attempt m)
  Costs-attempt a m h = record { at = λ w. h.at w }

  closed :
      {A B : Type 0} (r : Result A) (end : Result B × World E)
      → (finally (λ _. (r, end.1)) (λ _. end) end.1).1 ≡ end.1
  closed r (ok value, now) = refl
  closed r (err e, now) = refl

  Costs-finally :
      {A B : Type 0} (a b : ℕ) (m : Exec (World E) A) (cleanup : Exec (World E) B)
      → Costs a m
      → Costs b cleanup
      → Costs (a + b) (finally m cleanup)
  Costs-finally a b m cleanup h k = record {
    at = λ w. omega (
      arith,
      h.at w,
      k.at (m w).1,
      ap (λ v. meter.reads v.env) (closed (m w).0 (cleanup (m w).1)),
    );
  }

  Costs-if :
      {A : Type 0} (n : ℕ) (test : Bool) (first second : Exec (World E) A)
      → Costs n first
      → Costs n second
      → Costs n (if test then first else second)
  Costs-if n true first second h k = h
  Costs-if n false first second h k = k

  apply_and_publish-env :
      (name : ReadName) (value : Value name) (w : World E)
      → (apply_and_publish cx name value w).env ≡ w.env
  unfolding apply_and_publish publish
  apply_and_publish-env name value w = ground arith

  preempt_listen-env : (w : World E) → (preempt_listen w).env ≡ w.env
  unfolding preempt_listen
  preempt_listen-env w = ground arith

  finish_read-Costs :
      (name : ReadName) (outcome : Result (Option (Value name)))
      → Costs 0 (finish_read cx name outcome)
  unfolding finish_read note_error
  finish_read-Costs name (err cancelled) = record { at = λ w. omega arith }
  finish_read-Costs name (err (aqara authentication)) = Costs-modify _ (λ w. refl)
  finish_read-Costs name (err (aqara e)) = Costs-pure tt
  finish_read-Costs name (err (library objects i)) = Costs-pure tt
  finish_read-Costs name (ok none) = Costs-pure tt
  finish_read-Costs name (ok (some value)) =
      Costs-modify (apply_and_publish cx name value) (apply_and_publish-env name value)

  locked_read-Costs :
      (name : ReadName) → Costs (once m name) (with_operation_lock cx (await cx (read_one cx name)))
  unfolding with_operation_lock set_lock
  locked_read-Costs name =
      let o = once m name in
      Costs-le (0 + (0 + (o + 0))) o _ (omega arith) (
        Costs-bind 0 (0 + (o + 0)) (await cx cx.host.acquire) _
          (Costs-await 0 cx.host.acquire (λ e. omega (arith, meter.acquire_free e)))
          λ held.
            Costs-bind 0 (o + 0) (modify (set_lock true)) _
              (Costs-modify (set_lock true) (λ w. refl))
              λ x.
                Costs-finally o 0 (await cx (read_one cx name)) (modify (set_lock false))
                  (Costs-await o (read_one cx name) (λ e. omega (arith, meter.counted name e)))
                  (Costs-modify (set_lock false) (λ w. refl)))

  do_read-Costs : (name : ReadName) → Costs (once m name) (do_read cx name)
  unfolding do_read
  do_read-Costs name =
      let o = once m name in
      let read = with_operation_lock cx (await cx (read_one cx name)) in
      Costs-le (0 + (0 + (o + 0))) o _ (omega arith) (
        Costs-bind 0 (0 + (o + 0)) (gets (λ w. w.bluetooth.reachable)) _ (Costs-gets _) λ reachable.
          Costs-if (0 + (o + 0)) (not reachable) (pure tt) _
            (Costs-le 0 (0 + (o + 0)) (pure tt) (omega arith) (Costs-pure tt))
            (Costs-bind 0 (o + 0) (modify preempt_listen) _
              (Costs-modify preempt_listen preempt_listen-env)
              λ x.
                Costs-bind o 0 (attempt read) (finish_read cx name)
                  (Costs-attempt o read (locked_read-Costs name)) (finish_read-Costs name)))

  refresh_pass-Costs :
      (gap : Bool) (names : List ReadName) → Costs (times m names) (refresh_pass cx gap names)
  unfolding refresh_pass times
  refresh_pass-Costs gap [] = Costs-pure tt
  refresh_pass-Costs gap (name ∷ names) =
      let n = times m names in
      let o = once m name in
      let sleep = await cx (cx.host.sleep refresh_gap_seconds) in
      let slept : Costs 0 sleep =
        Costs-await 0 (cx.host.sleep refresh_gap_seconds)
          (λ e. omega (arith, meter.sleep_free refresh_gap_seconds e)) in
      let rest : Costs (o + n) (do_read cx name >> refresh_pass cx true names) =
        Costs-bind o n (do_read cx name) _ (do_read-Costs name)
          (λ x. refresh_pass-Costs true names) in
      Costs-le (0 + (0 + (o + n))) (o + n) _ (omega arith) (
        Costs-bind 0 (0 + (o + n)) (gets (λ w. w.self.battery_stop)) _ (Costs-gets _) λ stopped.
          Costs-if (0 + (o + n)) stopped (pure tt) _
            (Costs-le 0 (0 + (o + n)) (pure tt) (omega arith) (Costs-pure tt))
            (Costs-bind 0 (o + n) (when gap sleep) _
              (Costs-if 0 gap sleep (pure tt) slept (Costs-pure tt)) (λ x. rest)))

  retry_pass-Costs : (names : List ReadName) → Costs (times m names) (retry_pass cx names)
  unfolding retry_pass times
  retry_pass-Costs [] = Costs-pure tt
  retry_pass-Costs (name ∷ names) = refresh_pass-Costs true (name ∷ names)

  retry-Costs :
      (w : World E)
      → meter.reads (retry_pass cx (unread_names refresh_order w.self) w).1.env
        ≤ if_unread m w.self + meter.reads w.env
  retry-Costs w = ground (
    arith,
    (retry_pass-Costs (unread_names refresh_order w.self)).at w,
    times-unread_names m refresh_order w.self,
    times-refresh_order m,
  )

  -- Where a read counts one for its own value and neither the wait for the lock nor a sleep counts:
  -- a refresh of all values reads each value once at most, and one more time only if the value is still
  -- missing after all of them were read.
  pub refresh_all-Costs :
      (w : World E)
      → meter.reads (refresh_all cx w).1.env
        ≤ 1 + if_unread m (refresh_pass cx false refresh_order w).1.self + meter.reads w.env
  unfolding refresh_all
  refresh_all-Costs w = omega (
    arith,
    (refresh_pass-Costs false refresh_order).at w,
    times-refresh_order m,
    after (refresh_pass cx false refresh_order w),
  )
    where
      after :
          (end : Result (Unit {0}) × World E)
          → meter.reads
              (◌>>◌
                (λ _. end)
                (gets (λ v. unread_names refresh_order v.self) >>= retry_pass cx)
                end.1).1.env
            ≤ if_unread m end.1.self + meter.reads end.1.env
      after (ok value, now) = retry-Costs now
      after (err e, now) = omega arith
