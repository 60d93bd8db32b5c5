-- ===== src/Tenant/Outside.antt =====
-- Objects of a kind that no Workspace manages lie outside of every sync of a Workspace.
use otterscale_operator.Common.{String, ◌≢◌, Bool, inl}
use otterscale_operator.Api.Meta.{ObjectKey}
use otterscale_operator.Api.Workspace.{Workspace}
use otterscale_operator.Api.Owned.{
  Kind, namespaces, role_bindings, resource_quotas, limit_ranges, network_policies,
  peer_authentications, authorization_policies,
}
use otterscale_operator.Kube.{Kube}
use otterscale_operator.Kube.Laws.{ClientLaws}
use otterscale_operator.Workspace.RoleBindings.{known_roles}
use otterscale_operator.Workspace.RoleBindings.Laws.{NoBinding-of_kind}
use otterscale_operator.Tenant.Sync.{Outside}

module _ (K : Kube) (C : ClientLaws K) (w : Workspace) (version : String) (istio : Bool) where
  pub kind-Outside :
      (j : Kind) (other : ObjectKey)
      → namespaces ≢ j
      → role_bindings ≢ j
      → resource_quotas ≢ j
      → limit_ranges ≢ j
      → network_policies ≢ j
      → peer_authentications ≢ j
      → authorization_policies ≢ j
      → Outside K C w version istio j other
  kind-Outside j other n b q l p a z = record {
    namespace = inl n;
    bindings = NoBinding-of_kind w j other known_roles b;
    quota = inl q;
    limits = inl l;
    policy = inl p;
    peer = inl a;
    authorization = inl z;
  }
