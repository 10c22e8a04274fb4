-- ===== src/Const.antt =====
-- custom_components/aqara_u200/const.py, as far as the modelled code reads it. The durations are
-- floats of a whole number of seconds in the source.
use haos_aqara.Base.{ℕ}

abbrev pub realtime_session_seconds : ℕ
realtime_session_seconds = 3600

abbrev pub realtime_gap_seconds : ℕ
realtime_gap_seconds = 2

abbrev pub battery_initial_delay_seconds : ℕ
battery_initial_delay_seconds = 30

abbrev pub rotation_fill_seconds : ℕ
rotation_fill_seconds = 45

abbrev pub rotation_poll_seconds : ℕ
rotation_poll_seconds = 3600

abbrev pub refresh_gap_seconds : ℕ
refresh_gap_seconds = 30

abbrev pub ble_read_gap_seconds : ℕ
ble_read_gap_seconds = 8

abbrev pub ble_read_attempts : ℕ
ble_read_attempts = 3

abbrev pub language_presence_window_seconds : ℕ
language_presence_window_seconds = 90

abbrev pub data_presence_window_seconds : ℕ
data_presence_window_seconds = 30

abbrev pub presence_poll_seconds : ℕ
presence_poll_seconds = 3

abbrev pub enrol_timeout_seconds : ℕ
enrol_timeout_seconds = 90

abbrev pub default_poll_hours : ℕ
default_poll_hours = 0

abbrev pub max_poll_hours : ℕ
max_poll_hours = 168
