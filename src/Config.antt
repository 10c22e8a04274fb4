-- ===== src/Config.antt =====
-- The config flow, custom_components/aqara_u200/config_flow.py.
pub mod Created
pub mod Data
pub mod Answers
pub mod Cloud
pub mod Passed
pub mod Reauth
pub mod Schema
pub mod Flow
pub mod Steps
pub mod Validated
pub mod Local
pub mod Options
