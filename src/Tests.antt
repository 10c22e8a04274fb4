-- ===== src/Tests.antt =====
-- The theorems applied at concrete inputs: a lock, a library and a Home Assistant whose state is a number
-- that every call counts up.
mod Keys
mod Flows
mod Setups
mod Entities
mod Lock
mod Operations
mod Values
mod Tasks
mod Toggles
mod Interleavings
mod Registry
mod Adapters
