-- ===== src/Entities/Identity/Platforms.antt =====
-- The platforms that custom_components/aqara_u200/__init__.py sets up, and the entities of each one.
use haos_aqara.Base.{List, [], ◌∷◌}
use haos_aqara.Entities.Identity.{Owner, Identity}
use haos_aqara.Entities.Identity.Sensors.{sensors}
use haos_aqara.Entities.Identity.BinarySensors.{binary_sensors}
use haos_aqara.Entities.Identity.Controls.{locks, selects, numbers, switches, buttons}

pub data Platform : Type 0 where
  lock sensor binary_sensor select number switch button : Platform

-- `PLATFORMS`
abbrev pub platforms : List Platform
platforms = lock ∷ binary_sensor ∷ sensor ∷ button ∷ select ∷ number ∷ switch ∷ []

-- What `async_setup_entry` of the platform adds
unfoldable pub entities : Platform → Owner → List Identity
unfolding sensors binary_sensors locks selects numbers switches buttons
entities lock entry = locks entry
entities sensor entry = sensors entry
entities binary_sensor entry = binary_sensors entry
entities select entry = selects entry
entities number entry = numbers entry
entities switch entry = switches entry
entities button entry = buttons entry
