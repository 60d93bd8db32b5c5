-- ===== src/Tests/SimLaws.antt =====
-- `sim` meets the laws.
pub mod Client
pub mod Ownership
pub mod Lists
pub mod Healthy
pub use otterscale_operator.Tests.SimLaws.Client.{client_laws}
pub use otterscale_operator.Tests.SimLaws.Ownership.{ownership_laws}
pub use otterscale_operator.Tests.SimLaws.Lists.{
  error_laws, finalizer_laws, condition_laws, equality_laws,
}
pub use otterscale_operator.Tests.SimLaws.Healthy.{sim_Healthy}
