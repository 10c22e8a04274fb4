-- ===== src/Entities/Identity/Controls.antt =====
-- The entities of lock.py, select.py, number.py, switch.py and button.py of
-- custom_components/aqara_u200/.
use haos_aqara.Base.{String, List, [], ◌∷◌}
use haos_aqara.Entities.Number.{Timer}
use haos_aqara.Entities.Switch.{Switch}
use haos_aqara.Entities.Identity.{Owner, Identity, identity_of}

-- `AqaraU200Lock.__init__`
unfoldable pub lock_entity : Owner → Identity
unfolding identity_of
lock_entity entry = identity_of entry "lock"

unfoldable pub locks : Owner → List Identity
unfolding lock_entity
locks entry = lock_entity entry ∷ []

-- `_AqaraU200SelectBase.__init__`
unfoldable pub select_base : Owner → String → Identity
unfolding identity_of
select_base entry key = identity_of entry key

unfoldable pub alert_volume_select : Owner → Identity
unfolding select_base
alert_volume_select entry = select_base entry "alert_volume"

unfoldable pub alarm_volume_select : Owner → Identity
unfolding select_base
alarm_volume_select entry = select_base entry "alarm_volume"

unfoldable pub language_select : Owner → Identity
unfolding select_base
language_select entry = select_base entry "language"

unfoldable pub selects : Owner → List Identity
unfolding alert_volume_select alarm_volume_select language_select
selects entry = alert_volume_select entry ∷ alarm_volume_select entry ∷ language_select entry ∷ []

-- The keys of the timers
unfoldable pub timer_key : Timer → String
timer_key Timer.alert_delay = "alert_delay"
timer_key Timer.verify_fail_time = "verify_fail_time"
timer_key Timer.auto_lockup_relock_delay = "auto_lockup_relock_delay"
timer_key Timer.auto_lock_on_close_delay = "auto_lock_on_close_delay"

-- `AqaraU200TimerNumber.__init__`
unfoldable pub timer_number : Owner → Timer → Identity
unfolding identity_of timer_key
timer_number entry timer = identity_of entry (timer_key timer)

unfoldable pub numbers : Owner → List Identity
unfolding timer_number
numbers entry =
    timer_number entry Timer.alert_delay
    ∷ timer_number entry Timer.verify_fail_time
    ∷ timer_number entry Timer.auto_lockup_relock_delay
    ∷ timer_number entry Timer.auto_lock_on_close_delay
    ∷ []

-- The keys of the switches
unfoldable pub switch_key : Switch → String
switch_key Switch.assist_turn = "assist_turn"
switch_key Switch.auxiliary_close_to_lock = "auxiliary_close_to_lock"
switch_key Switch.auxiliary_resume_lock = "auxiliary_resume_lock"

-- `AqaraU200SettingSwitch.__init__`
unfoldable pub setting_switch : Owner → Switch → Identity
unfolding identity_of switch_key
setting_switch entry switch = identity_of entry (switch_key switch)

unfoldable pub switches : Owner → List Identity
unfolding setting_switch
switches entry =
    setting_switch entry Switch.assist_turn
    ∷ setting_switch entry Switch.auxiliary_close_to_lock
    ∷ setting_switch entry Switch.auxiliary_resume_lock
    ∷ []

-- `AqaraU200Refresh.__init__`
unfoldable pub refresh_button : Owner → Identity
unfolding identity_of
refresh_button entry = identity_of entry "refresh"

-- `AqaraU200EnableAction.__init__`
unfoldable pub enable_action : Owner → String → Identity
unfolding identity_of
enable_action entry key = identity_of entry key

unfoldable pub buttons : Owner → List Identity
unfolding refresh_button enable_action
buttons entry =
    refresh_button entry
    ∷ enable_action entry "enable_auxiliary_locking_on_close"
    ∷ enable_action entry "enable_auxiliary_locking_relock"
    ∷ []
