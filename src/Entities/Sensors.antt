-- ===== src/Entities/Sensors.antt =====
-- The values of custom_components/aqara_u200/sensor.py and of
-- custom_components/aqara_u200/binary_sensor.py.
use haos_aqara.Base.{ℕ, Bool, Option, String, List, [], ◌∷◌}
use haos_aqara.Base.Int.{ℤ}
use haos_aqara.Coordinator.State.{RuntimeSnapshot}
use haos_aqara.Entities.Select.{known, language_options}

-- `_attr_options` of `AqaraU200DoorType`
abbrev pub door_types : List String
door_types = "eu" ∷ "uk" ∷ "us" ∷ []

unfoldable pub door_type : RuntimeSnapshot → Option String
unfolding known
door_type snapshot = known door_types snapshot.door_type

unfoldable pub pull_spring_retraction : RuntimeSnapshot → Option ℕ
pull_spring_retraction snapshot = snapshot.pull_spring_retraction_s

unfoldable pub system_volume : RuntimeSnapshot → Option ℕ
system_volume snapshot = snapshot.system_volume

unfoldable pub language : RuntimeSnapshot → Option String
unfolding known
language snapshot = known language_options snapshot.language

unfoldable pub credentials : RuntimeSnapshot → Option ℕ
credentials snapshot = snapshot.credential_count

-- `extra_state_attributes`
unfoldable pub credential_attributes : RuntimeSnapshot → Option (List (String × ℕ))
credential_attributes snapshot = snapshot.credentials_by_type

unfoldable pub battery : RuntimeSnapshot → Option ℕ
battery snapshot = snapshot.battery_percent

unfoldable pub rssi : RuntimeSnapshot → Option ℤ
rssi snapshot = snapshot.rssi

unfoldable pub assist_turn : RuntimeSnapshot → Option Bool
assist_turn snapshot = snapshot.assist_turn

unfoldable pub pull_spring : RuntimeSnapshot → Option Bool
pull_spring snapshot = snapshot.pull_spring_enabled

unfoldable pub connectivity : RuntimeSnapshot → Bool
connectivity snapshot = snapshot.reachable
