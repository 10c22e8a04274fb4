-- ===== src/Settings.antt =====
-- The values that are read from the lock: `LockSettings` of custom_components/aqara_u200/client.py,
-- the names under which coordinator.py reads them, and how they are compared.
pub mod Data
pub mod Compare
