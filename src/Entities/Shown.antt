-- ===== src/Entities/Shown.antt =====
-- What the entities of custom_components/aqara_u200/ show.
use haos_aqara.Base.{
  ◌≡◌, refl, sym, ap, ◌∙◌, subst, Bool, true, false, Option, none, some, String, List, Bool-cases,
  inl, inr, ◌==◌, string_eq,
}
use haos_aqara.Errors.{Result, ok, err}
use haos_aqara.Exec.{Exec, raise, catch}
use haos_aqara.Boundary.{Call, Context}
use haos_aqara.Coordinator.State.{RuntimeSnapshot, World, Operation, build_snapshot}
use haos_aqara.Coordinator.Callbacks.{await}
use haos_aqara.Coordinator.Operation.{run_operation}
use haos_aqara.Coordinator.Operation.Outcome.{IsStarted}
use haos_aqara.Coordinator.Operation.Results.{position, run_operation-Actuated}
use haos_aqara.Coordinator.Operation.Settles.{IsIdle, serialized-IsIdle}
use haos_aqara.Coordinator.Requests as Requests
use haos_aqara.Entities.Surface.{surfaced, as_home_assistant_error}
use haos_aqara.Entities.Lock as Lock
use haos_aqara.Entities.Select.{
  Select, options, known, is_in, current_option, alarm_option, alert_option, language_option, get,
  keys, alarm_volume_is_silent,
}

known-is_in :
    (offered : List String) (value : Option String) (option : String)
    → known offered value ≡ some option
    → is_in option offered ≡ true
unfolding known
known-is_in offered none option h = cc
known-is_in offered (some value) option h = elim (Bool-cases (is_in value offered)) [
  | inl e ↦ let same : value ≡ option = cc in subst (λ v. is_in v offered ≡ true) same e
  | inr e ↦ cc
]

alarm_option-is_in :
    (raw : Option String) (option : String)
    → alarm_option raw ≡ some option
    → is_in option (options Select.alarm_volume) ≡ true
unfolding alarm_option get options is_in keys
alarm_option-is_in none option h = cc
alarm_option-is_in (some raw) option h = elim (Bool-cases ("00" == raw)) [
  | inl e ↦
      let same : "silent" ≡ option = cc in
      subst (λ v. is_in v (keys alarm_volume_is_silent) ≡ true) same refl
  | inr e ↦ elim (Bool-cases ("10" == raw)) [
    | inl e' ↦
        let same : "normal" ≡ option = cc in
        subst (λ v. is_in v (keys alarm_volume_is_silent) ≡ true) same refl
    | inr e' ↦ cc
  ]
]

-- Whatever the lock has answered, the option that a select shows is one of its options, so that it
-- can be selected again.
pub current_option-is_in :
    (select : Select) (snapshot : RuntimeSnapshot) (option : String)
    → current_option select snapshot ≡ some option
    → is_in option (options select) ≡ true
unfolding current_option alert_option language_option
current_option-is_in Select.alert_volume snapshot option h =
    known-is_in (options Select.alert_volume) snapshot.alert_volume option h
current_option-is_in Select.alarm_volume snapshot option h =
    alarm_option-is_in snapshot.alarm_volume option h
current_option-is_in Select.language snapshot option h =
    known-is_in (options Select.language) snapshot.language option h

module _ {E : Type 0} where
  caught-ok :
      (end : Result (Unit {0}) × World E)
      → (catch (λ _. end) (λ e. raise (as_home_assistant_error e)) end.1).0 ≡ ok tt
      → (end.0 ≡ ok tt)
        × ((catch (λ _. end) (λ e. raise {A = Unit {0}} (as_home_assistant_error e)) end.1).1
            ≡ end.1)
  caught-ok (ok tt, w) h = (refl, refl)
  caught-ok (err e, w) h = cc

  surfaced-ok :
      (request : Exec (World E) Unit) (w : World E)
      → (surfaced request w).0 ≡ ok tt
      → ((request w).0 ≡ ok tt) × ((surfaced request w).1 ≡ (request w).1)
  unfolding surfaced
  surfaced-ok request w h = caught-ok (request w) h

module _ {E : Type 0} (cx : Context E) where
  -- The position that the lock entity shows after an actuation: what the client has observed in a
  -- state that was set up for the operation, or else what was asked for.
  pub record Shows (op : Operation) (action : Call E (Option Bool)) (w w' : World E) : Type 0 where
    pub start : World E
    pub started : IsStarted cx op w start
    pub observed : Option Bool
    pub answered : (await cx action start).0 ≡ ok observed
    pub shown : Lock.is_locked w'.snapshot ≡ some (position op observed)
    pub is_idle : IsIdle cx w'

  run_operation-Shows :
      (op : Operation) (action : Call E (Option Bool)) (w : World E)
      → IsIdle cx w
      → (surfaced (run_operation cx op action) w).0 ≡ ok tt
      → Shows op action w (surfaced (run_operation cx op action) w).1
  unfolding Lock.is_locked run_operation build_snapshot
  run_operation-Shows op action w idle h =
      let ran = surfaced-ok (run_operation cx op action) w h in
      let end = (run_operation cx op action w).1 in
      let settled : IsIdle cx end = search serialized-IsIdle in
      let actuated = run_operation-Actuated cx op action w ran.0 in
      subst (Shows op action w) (sym ran.1) (record {
        start = actuated.start;
        started = actuated.started;
        observed = actuated.observed;
        answered = actuated.answered;
        shown = ap (λ s. s.is_locked) settled.coherent ∙ actuated.is_locked;
        is_idle = settled;
      })

  abbrev pub actuate : (to_lock : Bool) → Exec (World E) Unit
  actuate true = Lock.async_lock cx
  actuate false = Lock.async_unlock cx

  abbrev pub asked_for : (to_lock : Bool) → Operation × Call E (Option Bool)
  asked_for true = (Operation.lock, cx.client.async_lock)
  asked_for false = (Operation.unlock, cx.client.async_unlock)

  -- From an idle coordinator, a lock or an unlock of the entity that succeeds leaves it showing the
  -- position that the client has observed, or the one that was asked for if it has observed none, and
  -- the coordinator idle.
  pub actuate-Shows :
      (to_lock : Bool) (w : World E)
      → IsIdle cx w
      → (actuate to_lock w).0 ≡ ok tt
      → Shows (asked_for to_lock).0 (asked_for to_lock).1 w (actuate to_lock w).1
  unfolding Lock.async_lock Lock.async_unlock Requests.async_lock Requests.async_unlock
  actuate-Shows true w = run_operation-Shows Operation.lock cx.client.async_lock w
  actuate-Shows false w = run_operation-Shows Operation.unlock cx.client.async_unlock w
