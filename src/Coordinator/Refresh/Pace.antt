-- ===== src/Coordinator/Refresh/Pace.antt =====
-- How fast the battery poll of custom_components/aqara_u200/coordinator.py goes.
use haos_aqara.Base.{
  zero, suc, ◌≤◌, ◌≡◌, refl, sym, ap, ◌∙◌, Bool, true, false, not, ◌&&◌, Option, none, some, List,
  [], ◌∷◌, is_some, arith, if◌then◌else◌,
}
use haos_aqara.Base.Int.{ℤ, pos, negsuc}
use haos_aqara.Const.{rotation_fill_seconds}
use haos_aqara.Boundary.{Context, PollHours, hours, unreadable}
use haos_aqara.Settings.Data.{
  ReadName, battery, door_type, assist_turn, pull_spring, auxiliary_locking,
  auto_lockup_relock_delay, auto_lock_on_close_delay,
}
use haos_aqara.Coordinator.State.{Coordinator}
use haos_aqara.Coordinator.Read.{is_unread}
use haos_aqara.Coordinator.Refresh.{unread_names, have_all, interval, poll_seconds, poll_seconds_of}

-- The values that the poll wants before it slows down.
abbrev pub essential : List ReadName
essential =
    battery ∷ door_type ∷ assist_turn ∷ pull_spring ∷ auxiliary_locking ∷ auto_lockup_relock_delay
    ∷ auto_lock_on_close_delay ∷ []

abbrev pub is_empty : List ReadName → Bool
is_empty [] = true
is_empty (name ∷ names) = false

chosen_empty :
    (unread : Bool) (name : ReadName) (rest : List ReadName)
    → is_empty (if unread then name ∷ rest else rest) ≡ not unread && is_empty rest
chosen_empty true name rest = refl
chosen_empty false name rest = refl

cons_empty :
    (name : ReadName) (names : List ReadName) (self : Coordinator)
    → is_empty (unread_names (name ∷ names) self)
      ≡ not (is_unread name self) && is_empty (unread_names names self)
unfolding unread_names
cons_empty name names self = chosen_empty (is_unread name self) name (unread_names names self)

not-not : (b : Bool) → not (not b) ≡ b
not-not true = refl
not-not false = refl

and-true : (b : Bool) → b && true ≡ b
and-true true = refl
and-true false = refl

-- One value of the list after another.
read_next :
    (read : Bool) {others : Bool} (name : ReadName) (names : List ReadName) (self : Coordinator)
    → is_unread name self ≡ not read
    → read && is_empty (unread_names names self) ≡ others
    → is_empty (unread_names (name ∷ names) self) ≡ others
read_next read name names self e h =
    cons_empty name names self
    ∙ ap (λ b. not b && is_empty (unread_names names self)) e
    ∙ ap (λ b. b && is_empty (unread_names names self)) (not-not read)
    ∙ h

have_all-unread_names :
    (self : Coordinator) → have_all self ≡ is_empty (unread_names essential self)
unfolding have_all is_unread unread_names
have_all-unread_names self = sym (
    read_next (is_some self.battery_percent) battery
      (door_type ∷ assist_turn ∷ pull_spring ∷ auxiliary_locking ∷ auto_lockup_relock_delay
        ∷ auto_lock_on_close_delay ∷ [])
      self refl
      (ap (λ b. is_some self.battery_percent && b)
        (read_next (is_some self.settings.door_type) door_type
          (assist_turn ∷ pull_spring ∷ auxiliary_locking ∷ auto_lockup_relock_delay
            ∷ auto_lock_on_close_delay ∷ [])
          self refl
          (ap (λ b. is_some self.settings.door_type && b)
            (read_next (is_some self.settings.assist_turn) assist_turn
              (pull_spring ∷ auxiliary_locking ∷ auto_lockup_relock_delay ∷ auto_lock_on_close_delay
                ∷ [])
              self refl
              (ap (λ b. is_some self.settings.assist_turn && b)
                (read_next (is_some self.settings.pull_spring_enabled) pull_spring
                  (auxiliary_locking ∷ auto_lockup_relock_delay ∷ auto_lock_on_close_delay ∷ [])
                  self refl
                  (ap (λ b. is_some self.settings.pull_spring_enabled && b)
                    (read_next (is_some self.settings.auxiliary_locking) auxiliary_locking
                      (auto_lockup_relock_delay ∷ auto_lock_on_close_delay ∷ []) self refl
                      (ap (λ b. is_some self.settings.auxiliary_locking && b)
                        (read_next (is_some self.settings.auto_lockup_relock_delay)
                          auto_lockup_relock_delay (auto_lock_on_close_delay ∷ []) self refl
                          (ap (λ b. is_some self.settings.auto_lockup_relock_delay && b)
                            (read_next (is_some self.settings.auto_lock_on_close_delay)
                              auto_lock_on_close_delay [] self refl
                              (and-true
                                (is_some self.settings.auto_lock_on_close_delay)))))))))))))))

-- The poll goes at the pace of the options exactly while none of the seven essential values is unread,
-- whatever the other values are, and at the fast pace of the first fill else.
pub interval-unread_names :
    {E : Type 0} (cx : Context E) (self : Coordinator)
    → interval cx self ≡ (
        if is_empty (unread_names essential self)
        then poll_seconds cx.entry.poll_hours
        else rotation_fill_seconds)
unfolding interval
interval-unread_names cx self =
    ap (λ b. if b then poll_seconds cx.entry.poll_hours else rotation_fill_seconds)
      (have_all-unread_names self)

poll_seconds_of-lower : (n : ℤ) → 3600 ≤ poll_seconds_of n
unfolding poll_seconds_of
poll_seconds_of-lower (pos zero) = omega arith
poll_seconds_of-lower (pos (suc n)) = omega arith
poll_seconds_of-lower (negsuc n) = omega arith

-- The steady pace is never faster than one value in an hour, whatever the options say.
pub poll_seconds-lower : (poll_hours : Option PollHours) → 3600 ≤ poll_seconds poll_hours
unfolding poll_seconds
poll_seconds-lower none = poll_seconds_of-lower (pos 0)
poll_seconds-lower (some (hours n)) = poll_seconds_of-lower n
poll_seconds-lower (some (unreadable truthy)) = poll_seconds_of-lower (pos 0)
