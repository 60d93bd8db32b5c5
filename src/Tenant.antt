-- ===== src/Tenant.antt =====
-- internal/controller/tenant: the controller of Workspaces.
pub mod Detector
pub mod Status
pub mod Reconcile
pub mod Sync
pub mod Frame
pub mod Outside
pub mod Managed
pub mod Tenancy
pub mod Access
