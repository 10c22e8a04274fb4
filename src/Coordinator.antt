-- ===== src/Coordinator.antt =====
-- custom_components/aqara_u200/coordinator.py.
pub mod State
pub mod Callbacks
pub mod Tally
pub mod Read
pub mod Interleaving
pub mod Operation
pub mod Requests
pub mod Refresh
