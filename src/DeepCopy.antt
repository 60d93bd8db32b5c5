-- ===== src/DeepCopy.antt =====
-- The generated deep copies (zz_generated.deepcopy.go of api/tenant/v1alpha1 and of
-- api/addons/v1alpha1) on a memory with pointers.
pub mod Structs
pub mod Memory
pub mod Externals
pub mod Stored
pub mod Holds
pub mod Arrays
pub mod Blocks
pub mod Loop
pub mod Slices
pub mod ExternalLaws
pub mod Tenant
pub mod Addons
pub mod Objects
