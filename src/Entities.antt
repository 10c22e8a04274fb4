-- ===== src/Entities.antt =====
-- The entities: lock.py, number.py, select.py, switch.py, button.py, sensor.py and binary_sensor.py of
-- custom_components/aqara_u200/.
pub mod Surface
pub mod Lock
pub mod Number
pub mod Select
pub mod Switch
pub mod Button
pub mod Sensors
pub mod Commands
pub mod Shown
pub mod Identity
