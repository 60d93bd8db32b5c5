-- ===== src/Api.antt =====
-- The API types: `Meta` for the metadata that all objects share, `Workspace` for
-- api/tenant/v1alpha1, `Module` for api/addons/v1alpha1, and `Owned` for what the operator writes
-- of the foreign kinds that it manages.
pub mod Meta
pub mod Workspace
pub mod Module
pub mod Owned
