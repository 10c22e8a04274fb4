-- ===== src/Coordinator/Read/Applied.antt =====
-- What one applied read leaves: `_apply_read` and `_is_unread` of
-- custom_components/aqara_u200/coordinator.py.
use haos_aqara.Base.{
  ℕ, ◌≡◌, ◌≢◌, ◌↔◌, refl, sym, ap, ◌∙◌, false≢true, Bool, true, false, not, ◌&&◌, ◌||◌, Option,
  some, arith, if◌then◌else◌, Bool-cases, ◌==◌, ◌!=◌, option_eq, bool_eq, nat_eq, inl, inr, Eq,
  length, String, List, list_eq, pair_eq, string_eq,
}
use haos_aqara.Settings.Data.{
  ReadName, LockSettings, state, battery, door_type, assist_turn, pull_spring, auxiliary_locking,
  auto_lockup_relock_delay, auto_lock_on_close_delay, verify_fail_time, alert_delay, system_volume,
  language, alert_volume, alarm_volume, credentials, unrecognised, Value,
}
use haos_aqara.Settings.Compare.{settings_eq}
use haos_aqara.Coordinator.Tally.{credentials_by_type}
use haos_aqara.Coordinator.State.{Coordinator}
use haos_aqara.Coordinator.Read.{is_unread, replace, store_settings, apply_read}

-- The value written to the field of its name, field by field and with no test whether it is new.
unfoldable pub stored : (name : ReadName) → Value name → Coordinator → Coordinator
stored state value self = record self { is_locked = some value }
stored battery value self = record self { battery_percent = some value }
stored credentials value self = record self {
  credential_count = some (length value);
  credentials_by_type = some (credentials_by_type value);
}
stored door_type value self = record self {
  settings = record self.settings { door_type = some value };
}
stored assist_turn value self = record self {
  settings = record self.settings { assist_turn = some value };
}
stored auxiliary_locking value self = record self {
  settings = record self.settings { auxiliary_locking = some value };
}
stored auto_lockup_relock_delay value self = record self {
  settings = record self.settings { auto_lockup_relock_delay = some value };
}
stored auto_lock_on_close_delay value self = record self {
  settings = record self.settings { auto_lock_on_close_delay = some value };
}
stored verify_fail_time value self = record self {
  settings = record self.settings { verify_fail_time = some value };
}
stored alert_delay value self = record self {
  settings = record self.settings { alert_delay = some value };
}
stored system_volume value self = record self {
  settings = record self.settings { system_volume = some value };
}
stored language value self = record self {
  settings = record self.settings { language = some value };
}
stored alert_volume value self = record self {
  settings = record self.settings { alert_volume = some value };
}
stored alarm_volume value self = record self {
  settings = record self.settings { alarm_volume = some value };
}
stored pull_spring value self = record self {
  settings = record self.settings {
    pull_spring_enabled = some value.0;
    pull_spring_retraction_s = some value.1;
  };
}
stored unrecognised value self = record self {
  settings = record self.settings {
    pull_spring_enabled = some value.0;
    pull_spring_retraction_s = some value.1;
  };
}

-- A guarded write leaves what the write leaves, and reports whether that is another state.
abbrev pub IsWrite : Coordinator → Coordinator → Coordinator × Bool → Type 0
IsWrite self written (self', changed) = (self' ≡ written) × ((changed ≡ true) ↔ (written ≢ self))

module _ {A : Type 0} ⦃e : Eq A⦄ (get : Coordinator → A) (put : A → Coordinator) (new : A)
    (self : Coordinator) where
  guarded-IsWrite :
      get (put new) ≡ new
      → put (get self) ≡ self
      → IsWrite self (put new) (if new != get self then (put new, true) else (self, false))
  guarded-IsWrite got back = elim (Bool-cases (e.beq new (get self))) [
    | inl same ↦
        let p : new ≡ get self = e.eq_of_beq new (get self) same in
        rw same (sym back ∙ ap put (sym p), (λ h. cc, λ h. absurd (h (ap put p ∙ back))))
    | inr other ↦ rw other (
      refl,
      (
        λ h same. false≢true (sym other ∙ rw (sym got ∙ ap get same) (e.beq_refl (get self))),
        λ h. refl,
      ),
    )
  ]

not-and : (a b : Bool) → (not a || not b) ≡ not (a && b)
not-and a b = ground arith

store_settings-IsWrite :
    (new : LockSettings) (self : Coordinator)
    → IsWrite self (record self { settings = new }) (store_settings new self)
unfolding store_settings
store_settings-IsWrite new self =
    guarded-IsWrite (λ c. c.settings) (λ s. record self { settings = s }) new self refl refl

-- `_apply_read` leaves the state with the value written under its name, whether or not the value is
-- new, and answers `True` exactly when that state differs from the one before.
pub apply_read-IsWrite :
    (name : ReadName) (value : Value name) (self : Coordinator)
    → IsWrite self (stored name value self) (apply_read name value self)
unfolding apply_read stored replace
apply_read-IsWrite state value self =
    guarded-IsWrite (λ c. c.is_locked) (λ v. record self { is_locked = v }) (some value) self refl
      refl
apply_read-IsWrite battery value self =
    guarded-IsWrite (λ c. c.battery_percent) (λ v. record self { battery_percent = v }) (some value)
      self refl refl
apply_read-IsWrite credentials value self =
    rw
      (not-and (some (length value) == self.credential_count)
        (some (credentials_by_type value) == self.credentials_by_type))
      (guarded-IsWrite {A = Option ℕ × Option (List (String × ℕ))}
        (λ c. (c.credential_count, c.credentials_by_type))
        (λ v. record self { credential_count = v.0; credentials_by_type = v.1 })
        (some (length value), some (credentials_by_type value)) self refl refl)
apply_read-IsWrite name value self = store_settings-IsWrite (replace name value self.settings) self

-- The field that a name stands for: pull_spring is also read for a name that is not known.
abbrev pub slot : ReadName → ℕ
slot state = 0
slot battery = 1
slot door_type = 2
slot assist_turn = 3
slot pull_spring = 4
slot auxiliary_locking = 5
slot auto_lockup_relock_delay = 6
slot auto_lock_on_close_delay = 7
slot verify_fail_time = 8
slot alert_delay = 9
slot system_volume = 10
slot language = 11
slot alert_volume = 12
slot alarm_volume = 13
slot credentials = 14
slot unrecognised = 4

is_unread-stored :
    (m n : ReadName) (value : Value n) (self : Coordinator)
    → is_unread m (stored n value self) ≡ (if slot m == slot n then false else is_unread m self)
unfolding is_unread stored replace
is_unread-stored m state value self = ground arith
is_unread-stored m battery value self = ground arith
is_unread-stored m door_type value self = ground arith
is_unread-stored m _ value self = ground arith

-- After a value has been applied under a name, `_is_unread` answers `False` for that name, and for
-- the names of the other fields what it answered before.
pub is_unread-apply_read :
    (m n : ReadName) (value : Value n) (self : Coordinator)
    → is_unread m (apply_read n value self).0
      ≡ (if slot m == slot n then false else is_unread m self)
is_unread-apply_read m n value self =
    rw ((apply_read-IsWrite n value self).0) (is_unread-stored m n value self)

stored-stored :
    (name : ReadName) (value : Value name) (self : Coordinator)
    → stored name value (stored name value self) ≡ stored name value self
unfolding stored replace
stored-stored state value self = refl
stored-stored _ value self = refl

-- A write that would change nothing reports so.
unchanged :
    (self written : Coordinator) (r : Coordinator × Bool)
    → IsWrite self written r
    → written ≡ self
    → r ≡ (self, false)
unchanged self written (self', true) h e = absurd (h.1.0 refl e)
unchanged self written (self', false) h e = ap (λ c. (c, false)) (h.0 ∙ e)

-- Applying the same value a second time reports no change and leaves the state as it is.
pub apply_read_again :
    (name : ReadName) (value : Value name) (self : Coordinator)
    → apply_read name value (apply_read name value self).0 ≡ ((apply_read name value self).0, false)
apply_read_again name value self =
    let once = (apply_read name value self).0 in
    let e = (apply_read-IsWrite name value self).0 in
    unchanged once (stored name value once) (apply_read name value once)
      (apply_read-IsWrite name value once)
      (ap (stored name value) e ∙ stored-stored name value self ∙ sym e)
