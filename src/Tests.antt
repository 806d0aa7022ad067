-- ===== src/Tests.antt =====
-- Concrete inputs, and the theorems applied to them.
pub mod Inputs
mod Runs
mod Zones
mod Readings
mod Gates
pub mod Accounts
pub mod Stores
mod Starts
mod Authorizations
mod Grants
