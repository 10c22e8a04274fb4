-- ===== src/Entities/Commands.antt =====
-- How the actions of the entities of custom_components/aqara_u200/ end.
use haos_aqara.Base.{
  ℕ, ◌≡◌, refl, sym, ◌∙◌, Bool, true, false, Option, none, some, String, List, [], ◌∷◌, Bool-cases,
  inl, inr, ◌==◌, string_eq,
}
use haos_aqara.Errors.{Result, ok, err, aqara, cancelled, library}
use haos_aqara.Errors.Builtin.{home_assistant_error}
use haos_aqara.Exec.{Exec, raise, catch}
use haos_aqara.Boundary.{EnrolKind, Context}
use haos_aqara.Coordinator.State.{World}
use haos_aqara.Coordinator.Callbacks.{await}
use haos_aqara.Coordinator.Operation.Outcome.{SanitizedResult}
use haos_aqara.Coordinator.Requests as Requests
use haos_aqara.Coordinator.Requests.Sanitized.{
  async_lock-Sanitized, async_unlock-Sanitized, async_enrol_credential-Sanitized,
  async_set_auxiliary_close_to_lock-Sanitized, async_set_auxiliary_resume_lock-Sanitized,
  async_set_alert_volume-Sanitized, async_set_alarm_volume-Sanitized,
  async_set_alert_delay-Sanitized, async_set_verify_fail_time-Sanitized,
  async_set_auto_lockup_relock_delay-Sanitized, async_set_auto_lock_on_close_delay-Sanitized,
  async_enable_auxiliary_locking_on_close-Sanitized,
  async_enable_auxiliary_locking_relock-Sanitized, async_set_assist_turn-Sanitized,
  async_add_visitor_password-Sanitized, async_delete_user-Sanitized,
}
use haos_aqara.Entities.Surface.{surfaced, as_home_assistant_error}
use haos_aqara.Entities.Lock as Lock
use haos_aqara.Entities.Number as Number
use haos_aqara.Entities.Number.{Timer, async_set_native_value}
use haos_aqara.Entities.Select.{
  Select, options, is_in, alert_volume_levels, alarm_volume_is_silent, keys, get, with_value,
  async_select_option, select_alert_volume, select_alarm_volume, select_language,
}
use haos_aqara.Entities.Switch as Switches
use haos_aqara.Entities.Switch.{Switch, async_turn_on, async_turn_off, async_set}
use haos_aqara.Entities.Button.{Button, async_press, press_refresh}

-- The actions that Home Assistant calls of the entities.
pub data Command : Type 0 where
  lock unlock : Command
  add_visitor_password : String → ℕ → Command
  delete_user : ℕ → Command
  enrol_credential : ℕ → EnrolKind → Command
  set_native_value : Timer → ℕ → Command
  select_option : Select → String → Command
  turn_on turn_off : Switch → Command
  press : Button → Command

unfoldable pub perform : {E : Type 0} → Context E → Command → Exec (World E) Unit
perform cx lock = Lock.async_lock cx
perform cx unlock = Lock.async_unlock cx
perform cx (add_visitor_password pin group_id) = Lock.async_add_visitor_password cx pin group_id
perform cx (delete_user user_id) = Lock.async_delete_user cx user_id
perform cx (enrol_credential user_group_id kind) = Lock.async_enrol_credential cx user_group_id kind
perform cx (set_native_value timer value) = async_set_native_value cx timer value
perform cx (select_option select option) = async_select_option cx select option
perform cx (turn_on switch) = async_turn_on cx switch
perform cx (turn_off switch) = async_turn_off cx switch
perform cx (press button) = async_press cx button

-- Home Assistant calls a select only with one of its options.
unfoldable pub IsOffered : Command → Type 0
IsOffered (select_option select option) = is_in option (options select) ≡ true
IsOffered _ = Unit

-- What Home Assistant may get to see.
unfoldable pub IsSurfaced : Result (Unit {0}) → Type 0
IsSurfaced (ok _) = Unit
IsSurfaced (err (aqara e)) = ⊥
IsSurfaced (err cancelled) = Unit
IsSurfaced (err (library objects i)) = library objects i ≡ home_assistant_error

module _ {E : Type 0} where
  caught-IsSurfaced :
      (end : Result (Unit {0}) × World E)
      → SanitizedResult end.0
      → IsSurfaced (catch (λ _. end) (λ e. raise (as_home_assistant_error e)) end.1).0
  unfolding IsSurfaced as_home_assistant_error
  caught-IsSurfaced (ok tt, w) h = tt
  caught-IsSurfaced (err (aqara e), w) h = refl
  caught-IsSurfaced (err cancelled, w) h = tt
  caught-IsSurfaced (err (library objects i), w) h = elim h [ ]

  surfaced-IsSurfaced :
      (request : Exec (World E) Unit) (w : World E)
      → SanitizedResult (request w).0
      → IsSurfaced (surfaced request w).0
  unfolding surfaced
  surfaced-IsSurfaced request w h = caught-IsSurfaced (request w) h

get-is_in :
    {V : Type 0} (dictionary : List (String × V)) (key : String)
    → is_in key (keys dictionary) ≡ true
    → (v : V) × (get dictionary key ≡ some v)
unfolding is_in keys get
get-is_in [] key h = cc
get-is_in ((k, v) ∷ dictionary) key h = elim (Bool-cases (k == key)) [
  | inl e ↦ (v, rw e)
  | inr e ↦ let found = get-is_in dictionary key (sym (rw e) ∙ h) in (found.0, rw e found.1)
]

module _ {E : Type 0} (cx : Context E)
    (waits : (v : World E) → SanitizedResult (await cx cx.host.acquire v).0) where
  set_native_value-Sanitized :
      (timer : Timer) (value : ℕ) (w : World E) → SanitizedResult (Number.setter cx timer value w).0
  unfolding Number.setter
  set_native_value-Sanitized Timer.alert_delay value w =
      async_set_alert_delay-Sanitized cx waits value w
  set_native_value-Sanitized Timer.verify_fail_time value w =
      async_set_verify_fail_time-Sanitized cx waits value w
  set_native_value-Sanitized Timer.auto_lockup_relock_delay value w =
      async_set_auto_lockup_relock_delay-Sanitized cx waits value w
  set_native_value-Sanitized Timer.auto_lock_on_close_delay value w =
      async_set_auto_lock_on_close_delay-Sanitized cx waits value w

  turn-Sanitized :
      (switch : Switch) (enabled : Bool) (w : World E)
      → SanitizedResult (Switches.setter cx switch enabled w).0
  unfolding Switches.setter
  turn-Sanitized Switch.assist_turn enabled w = async_set_assist_turn-Sanitized cx waits enabled w
  turn-Sanitized Switch.auxiliary_close_to_lock enabled w =
      async_set_auxiliary_close_to_lock-Sanitized cx waits enabled w
  turn-Sanitized Switch.auxiliary_resume_lock enabled w =
      async_set_auxiliary_resume_lock-Sanitized cx waits enabled w

  press-IsSurfaced : (button : Button) (w : World E) → IsSurfaced (async_press cx button w).0
  unfolding async_press press_refresh IsSurfaced
  press-IsSurfaced Button.refresh w = tt
  press-IsSurfaced Button.enable_auxiliary_locking_on_close w =
      surfaced-IsSurfaced (Requests.async_enable_auxiliary_locking_on_close cx) w
        (async_enable_auxiliary_locking_on_close-Sanitized cx waits w)
  press-IsSurfaced Button.enable_auxiliary_locking_relock w =
      surfaced-IsSurfaced (Requests.async_enable_auxiliary_locking_relock cx) w
        (async_enable_auxiliary_locking_relock-Sanitized cx waits w)

  with_value-IsSurfaced :
      {V : Type 0} (found : Option V) (request : V → Exec (World E) Unit) (w : World E)
      → ((v : V) → SanitizedResult (request v w).0)
      → (v : V) × (found ≡ some v)
      → IsSurfaced (surfaced (with_value found request) w).0
  unfolding with_value
  with_value-IsSurfaced none request w h (v, e) = cc
  with_value-IsSurfaced (some v) request w h e = surfaced-IsSurfaced (request v) w (h v)

  select-IsSurfaced :
      (select : Select) (option : String) (w : World E)
      → is_in option (options select) ≡ true
      → IsSurfaced (async_select_option cx select option w).0
  unfolding async_select_option select_alert_volume select_alarm_volume select_language options
      IsSurfaced
  select-IsSurfaced Select.alert_volume option w offered =
      with_value-IsSurfaced (get alert_volume_levels option) (Requests.async_set_alert_volume cx) w
        (λ level. async_set_alert_volume-Sanitized cx waits level w)
        (get-is_in alert_volume_levels option offered)
  select-IsSurfaced Select.alarm_volume option w offered =
      with_value-IsSurfaced (get alarm_volume_is_silent option) (Requests.async_set_alarm_volume cx)
        w (λ silent. async_set_alarm_volume-Sanitized cx waits silent w)
        (get-is_in alarm_volume_is_silent option offered)
  select-IsSurfaced Select.language option w offered = tt

  -- Whatever Home Assistant asks of an entity, a select only for one of its options, the action
  -- succeeds, raises a HomeAssistantError, or is cancelled, where the wait for the operation lock
  -- raises nothing but the integration's own exceptions and a cancellation.
  pub perform-IsSurfaced :
      (command : Command) (w : World E) → IsOffered command → IsSurfaced (perform cx command w).0
  unfolding perform IsOffered Lock.async_lock Lock.async_unlock Lock.async_add_visitor_password
      Lock.async_delete_user Lock.async_enrol_credential async_set_native_value async_turn_on
      async_turn_off async_set
  perform-IsSurfaced lock w o =
      surfaced-IsSurfaced (Requests.async_lock cx) w (async_lock-Sanitized cx waits w)
  perform-IsSurfaced unlock w o =
      surfaced-IsSurfaced (Requests.async_unlock cx) w (async_unlock-Sanitized cx waits w)
  perform-IsSurfaced (add_visitor_password pin group_id) w o =
      surfaced-IsSurfaced (Requests.async_add_visitor_password cx pin group_id) w
        (async_add_visitor_password-Sanitized cx waits pin group_id w)
  perform-IsSurfaced (delete_user user_id) w o =
      surfaced-IsSurfaced (Requests.async_delete_user cx user_id) w
        (async_delete_user-Sanitized cx waits user_id w)
  perform-IsSurfaced (enrol_credential user_group_id kind) w o =
      surfaced-IsSurfaced (Requests.async_enrol_credential cx user_group_id kind) w
        (async_enrol_credential-Sanitized cx waits user_group_id kind w)
  perform-IsSurfaced (set_native_value timer value) w o =
      surfaced-IsSurfaced (Number.setter cx timer value) w
        (set_native_value-Sanitized timer value w)
  perform-IsSurfaced (select_option select option) w o = select-IsSurfaced select option w o
  perform-IsSurfaced (turn_on switch) w o =
      surfaced-IsSurfaced (Switches.setter cx switch true) w (turn-Sanitized switch true w)
  perform-IsSurfaced (turn_off switch) w o =
      surfaced-IsSurfaced (Switches.setter cx switch false) w (turn-Sanitized switch false w)
  perform-IsSurfaced (press button) w o = press-IsSurfaced button w
