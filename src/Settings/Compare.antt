-- ===== src/Settings/Compare.antt =====
-- The equality of masks and settings: a dictionary and a frozen dataclass are compared by parts.
use haos_aqara.Base.{
  ℕ, ◌≡◌, ap, Bool, true, Option, String, Eq, option_eq, bool_eq, nat_eq, string_eq, pair_eq, ◌==◌,
}
use haos_aqara.Settings.Data.{Mask, LockSettings}

abbrev MaskParts : Type 0
MaskParts = (Option Bool × Option Bool) × (Option Bool × Option Bool)

abbrev mask_parts : Mask → MaskParts
mask_parts m = ((m.touch_to_lock, m.close_to_lock), (m.resume_lock, m.any_unlock_lock))

abbrev mask_of_parts : MaskParts → Mask
mask_of_parts p = record {
  touch_to_lock = p.0.0;
  close_to_lock = p.0.1;
  resume_lock = p.1.0;
  any_unlock_lock = p.1.1;
}

abbrev pub mask_beq : Mask → Mask → Bool
mask_beq m n = mask_parts m == mask_parts n

pub eq_of_mask_beq : (m n : Mask) → mask_beq m n ≡ true → m ≡ n
eq_of_mask_beq m n h =
    let e : Eq MaskParts = pair_eq in ap mask_of_parts (e.eq_of_beq (mask_parts m) (mask_parts n) h)

pub mask_beq_refl : (m : Mask) → mask_beq m m ≡ true
mask_beq_refl m = let e : Eq MaskParts = pair_eq in e.beq_refl (mask_parts m)

instance abbrev pub mask_eq : Eq Mask
mask_eq = record { beq = mask_beq; eq_of_beq = eq_of_mask_beq; beq_refl = mask_beq_refl }

abbrev SettingsParts : Type 0
SettingsParts =
    (Option String × Option Bool)
    × ((Option Bool × Option ℕ)
        × ((Option Mask × Option ℕ)
            × ((Option String × Option String)
                × ((Option String × Option ℕ) × ((Option ℕ × Option ℕ) × Option ℕ)))))

abbrev settings_parts : LockSettings → SettingsParts
settings_parts s = (
  (s.door_type, s.assist_turn),
  (
    (s.pull_spring_enabled, s.pull_spring_retraction_s),
    (
      (s.auxiliary_locking, s.system_volume),
      (
        (s.language, s.alert_volume),
        (
          (s.alarm_volume, s.verify_fail_time),
          ((s.auto_lockup_relock_delay, s.auto_lock_on_close_delay), s.alert_delay),
        ),
      ),
    ),
  ),
)

abbrev settings_of_parts : SettingsParts → LockSettings
settings_of_parts p = record {
  door_type = p.0.0;
  assist_turn = p.0.1;
  pull_spring_enabled = p.1.0.0;
  pull_spring_retraction_s = p.1.0.1;
  auxiliary_locking = p.1.1.0.0;
  system_volume = p.1.1.0.1;
  language = p.1.1.1.0.0;
  alert_volume = p.1.1.1.0.1;
  alarm_volume = p.1.1.1.1.0.0;
  verify_fail_time = p.1.1.1.1.0.1;
  auto_lockup_relock_delay = p.1.1.1.1.1.0.0;
  auto_lock_on_close_delay = p.1.1.1.1.1.0.1;
  alert_delay = p.1.1.1.1.1.1;
}

unfoldable pub settings_beq : LockSettings → LockSettings → Bool
settings_beq s t = settings_parts s == settings_parts t

pub eq_of_settings_beq : (s t : LockSettings) → settings_beq s t ≡ true → s ≡ t
unfolding settings_beq
eq_of_settings_beq s t h =
    let e : Eq SettingsParts = pair_eq in
    ap settings_of_parts (e.eq_of_beq (settings_parts s) (settings_parts t) h)

pub settings_beq_refl : (s : LockSettings) → settings_beq s s ≡ true
unfolding settings_beq
settings_beq_refl s = let e : Eq SettingsParts = pair_eq in e.beq_refl (settings_parts s)

-- The test stays shut: its two laws say all that a proof uses.
instance abbrev pub settings_eq : Eq LockSettings
settings_eq = record {
  beq = settings_beq;
  eq_of_beq = eq_of_settings_beq;
  beq_refl = settings_beq_refl;
}
