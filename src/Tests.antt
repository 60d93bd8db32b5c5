-- ===== src/Tests.antt =====
-- Runs on concrete data, and the theorems at concrete inputs.
pub mod Store
pub mod Sim
pub mod SimLaws
pub mod Data
mod Tenant
mod DeepCopy
mod Webhook
mod Addons
mod System
mod Entry
mod Progress
mod Quiet
mod Leftovers
mod Settled
mod ModuleRuns
