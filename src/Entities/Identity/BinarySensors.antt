-- ===== src/Entities/Identity/BinarySensors.antt =====
-- The entities of custom_components/aqara_u200/binary_sensor.py.
use haos_aqara.Base.{String, List, [], ◌∷◌}
use haos_aqara.Entities.Identity.{Owner, Identity, identity_of}

-- `_AqaraU200FeatureBinary.__init__`
unfoldable pub feature_binary : Owner → String → Identity
unfolding identity_of
feature_binary entry key = identity_of entry key

unfoldable pub assist_turn_sensor : Owner → Identity
unfolding feature_binary
assist_turn_sensor entry = feature_binary entry "assist_turn"

unfoldable pub pull_spring_sensor : Owner → Identity
unfolding feature_binary
pull_spring_sensor entry = feature_binary entry "pull_spring"

unfoldable pub connectivity_sensor : Owner → Identity
unfolding identity_of
connectivity_sensor entry = identity_of entry "connectivity"

-- `async_setup_entry`
unfoldable pub binary_sensors : Owner → List Identity
unfolding connectivity_sensor assist_turn_sensor pull_spring_sensor
binary_sensors entry =
    connectivity_sensor entry ∷ assist_turn_sensor entry ∷ pull_spring_sensor entry ∷ []
