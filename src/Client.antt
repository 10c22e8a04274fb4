-- ===== src/Client.antt =====
-- custom_components/aqara_u200/client.py: the adapter that connects to the lock.
pub mod Library
pub mod Session
pub mod Reads
pub mod Writes
pub mod Operate
pub mod Offline
pub mod Adapter
