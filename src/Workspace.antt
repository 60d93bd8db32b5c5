-- ===== src/Workspace.antt =====
-- internal/core/workspace: what a Workspace owns, and who may change it.
pub mod Helpers
pub mod Authorization
pub mod Desired
pub mod Spec
pub mod Namespace
pub mod RoleBindings
pub mod Constraints
pub mod Network
