-- ===== src/Entities/Identity/Sensors.antt =====
-- The entities of custom_components/aqara_u200/sensor.py.
use haos_aqara.Base.{String, List, [], ◌∷◌}
use haos_aqara.Entities.Identity.{Owner, Identity, identity_of}

-- `_AqaraU200SensorBase.__init__`
unfoldable pub sensor_base : Owner → String → Identity
unfolding identity_of
sensor_base entry key = identity_of entry key

unfoldable pub door_type_sensor : Owner → Identity
unfolding sensor_base
door_type_sensor entry = sensor_base entry "door_type"

unfoldable pub pull_spring_retraction_sensor : Owner → Identity
unfolding sensor_base
pull_spring_retraction_sensor entry = sensor_base entry "pull_spring_retraction"

unfoldable pub system_volume_sensor : Owner → Identity
unfolding sensor_base
system_volume_sensor entry = sensor_base entry "system_volume"

unfoldable pub language_sensor : Owner → Identity
unfolding sensor_base
language_sensor entry = sensor_base entry "language"

unfoldable pub credentials_sensor : Owner → Identity
unfolding sensor_base
credentials_sensor entry = sensor_base entry "credentials"

unfoldable pub battery_sensor : Owner → Identity
unfolding identity_of
battery_sensor entry = identity_of entry "battery"

unfoldable pub rssi_sensor : Owner → Identity
unfolding identity_of
rssi_sensor entry = identity_of entry "rssi"

-- `async_setup_entry`
unfoldable pub sensors : Owner → List Identity
unfolding battery_sensor rssi_sensor door_type_sensor pull_spring_retraction_sensor
    system_volume_sensor language_sensor credentials_sensor
sensors entry =
    battery_sensor entry
    ∷ rssi_sensor entry
    ∷ door_type_sensor entry
    ∷ pull_spring_retraction_sensor entry
    ∷ system_volume_sensor entry
    ∷ language_sensor entry
    ∷ credentials_sensor entry
    ∷ []
