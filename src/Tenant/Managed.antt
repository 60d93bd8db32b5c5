-- ===== src/Tenant/Managed.antt =====
-- The objects that belong to a Workspace, and what a reconcile leaves of them.
use otterscale_operator.Common.{not, ◌&&◌, String, ◌≡◌, ◌≢◌, ap, Bool, List, [], ◌∷◌, inl, inr}
use otterscale_operator.Common.Dict.{Dict}
use otterscale_operator.Api.Meta.{ObjectKey}
use otterscale_operator.Api.Workspace.{
  Workspace, MemberRole, member_role_admin, member_role_edit, member_role_view,
}
use otterscale_operator.Api.Owned.{
  Kind, namespaces, role_bindings, resource_quotas, limit_ranges, network_policies,
  peer_authentications, authorization_policies, workspaces, modules, module_templates,
  helm_releases, kustomizations,
}
use otterscale_operator.Workspace.Helpers.{
  resource_quota_name, limit_range_name, network_policy_name, peer_authentication_name,
  authorization_policy_name,
}
use otterscale_operator.Kube.{Kube}
use otterscale_operator.Kube.Laws.{ClientLaws}
use otterscale_operator.Workspace.Namespace.Laws.{Labelled-of_eq}
use otterscale_operator.Workspace.Spec.{
  with_role, wanted_binding, isolation_policy, isolation_tls, isolation_access,
}
use otterscale_operator.Workspace.Desired.{Desired-of_eq}
use otterscale_operator.Workspace.Namespace.{namespace_key}
use otterscale_operator.Workspace.RoleBindings.{role_binding_key, known_roles}
use otterscale_operator.Workspace.RoleBindings.Laws.{RoleDesired, NoBinding, NoBinding-of_kind}
use otterscale_operator.Workspace.Constraints.{resource_quota_key, limit_range_key}
use otterscale_operator.Workspace.Network.{
  network_policy_key, peer_authentication_key, authorization_policy_key,
}
use otterscale_operator.Workspace.Network.Laws.{only_if}
use otterscale_operator.Tenant.Sync.{Synced, Outside}

-- The places of the objects that a sync of the Workspace writes or deletes.
pub data Managed (w : Workspace) : Kind → ObjectKey → Type 0 where
  namespace : Managed w namespaces (namespace_key w)
  binding : (role : MemberRole) → Managed w role_bindings (role_binding_key w role)
  quota : Managed w resource_quotas (resource_quota_key w)
  limits : Managed w limit_ranges (limit_range_key w)
  policy : Managed w network_policies (network_policy_key w)
  peer : Managed w peer_authentications (peer_authentication_key w)
  authorization : Managed w authorization_policies (authorization_policy_key w)

module _ (K : Kube) (C : ClientLaws K) (w : Workspace) (version : String) (b : Bool) where
  -- Two states that hold the same at the places of the Workspace are synced alike.
  pub Synced-of_same :
      {labels : Dict String} {s t : K.State}
      → ((j : Kind) (other : ObjectKey)
          → Managed w j other
          → K.lookup j other t ≡ K.lookup j other s)
      → Synced K C w version b labels s
      → Synced K C w version b labels t
  Synced-of_same {labels} {s} {t} same d = record {
    namespace =
        Labelled-of_eq K w version b labels (same namespaces (namespace_key w) Managed.namespace)
          d.namespace;
    admin = role_same member_role_admin d.admin;
    edit = role_same member_role_edit d.edit;
    view = role_same member_role_view d.view;
    quota =
        Desired-of_eq K w version resource_quotas (resource_quota_key w) w.body.spec.resource_quota
          (same resource_quotas (resource_quota_key w) quota) d.quota;
    limits =
        Desired-of_eq K w version limit_ranges (limit_range_key w) w.body.spec.limit_range
          (same limit_ranges (limit_range_key w) limits) d.limits;
    policy =
        Desired-of_eq K w version network_policies (network_policy_key w)
          (only_if (w.body.spec.network_isolation.enabled && not b) (isolation_policy w))
          (same network_policies (network_policy_key w) policy) d.policy;
    peer =
        Desired-of_eq K w version peer_authentications (peer_authentication_key w)
          (only_if (w.body.spec.network_isolation.enabled && b) isolation_tls)
          (same peer_authentications (peer_authentication_key w) peer) d.peer;
    authorization =
        Desired-of_eq K w version authorization_policies (authorization_policy_key w)
          (only_if (w.body.spec.network_isolation.enabled && b) (isolation_access w))
          (same authorization_policies (authorization_policy_key w) authorization) d.authorization;
  }
    where
      role_same :
          (role : MemberRole) → RoleDesired K w version role s → RoleDesired K w version role t
      role_same role =
          Desired-of_eq K w version role_bindings (role_binding_key w role)
            (wanted_binding role (with_role role w.body.spec.members))
            (same role_bindings (role_binding_key w role) (binding role))

  NoBinding-of_namespace :
      (j : Kind) (other : ObjectKey) (roles : List MemberRole)
      → w.body.spec.namespace ≢ other.namespace
      → NoBinding w j other roles
  NoBinding-of_namespace j other [] ne = tt
  NoBinding-of_namespace j other (role ∷ roles) ne = (
    inr (λ e. ne (ap (λ (key : ObjectKey). key.namespace) e)),
    NoBinding-of_namespace j other roles ne,
  )

  Outside-of_namespace :
      (j : Kind) (other : ObjectKey)
      → namespaces ≢ j
      → w.body.spec.namespace ≢ other.namespace
      → Outside K C w version b j other
  Outside-of_namespace j other kind ne =
      let apart : ((name : String)
          → record { namespace = w.body.spec.namespace; name = name } ≢ other) =
        λ name e. ne (ap (λ (key : ObjectKey). key.namespace) e) in
      record {
        namespace = inl kind;
        bindings = NoBinding-of_namespace j other known_roles ne;
        quota = inr (apart resource_quota_name);
        limits = inr (apart limit_range_name);
        policy = inr (apart network_policy_name);
        peer = inr (apart peer_authentication_name);
        authorization = inr (apart authorization_policy_name);
      }

  -- What belongs to a Workspace is outside of every Workspace with another namespace.
  pub Managed-Outside :
      (v : Workspace) {j : Kind} {other : ObjectKey}
      → w.body.spec.namespace ≢ v.body.spec.namespace
      → Managed v j other
      → Outside K C w version b j other
  Managed-Outside v ne Managed.namespace = record {
    namespace = inr (λ e. ne (ap (λ (key : ObjectKey). key.name) e));
    bindings = NoBinding-of_kind w namespaces (namespace_key v) known_roles (λ e. cc);
    quota = inl (λ e. cc);
    limits = inl (λ e. cc);
    policy = inl (λ e. cc);
    peer = inl (λ e. cc);
    authorization = inl (λ e. cc);
  }
  Managed-Outside v ne (binding role) =
      Outside-of_namespace role_bindings (role_binding_key v role) (λ e. cc) ne
  Managed-Outside v ne quota =
      Outside-of_namespace resource_quotas (resource_quota_key v) (λ e. cc) ne
  Managed-Outside v ne limits = Outside-of_namespace limit_ranges (limit_range_key v) (λ e. cc) ne
  Managed-Outside v ne policy =
      Outside-of_namespace network_policies (network_policy_key v) (λ e. cc) ne
  Managed-Outside v ne peer =
      Outside-of_namespace peer_authentications (peer_authentication_key v) (λ e. cc) ne
  Managed-Outside v ne authorization =
      Outside-of_namespace authorization_policies (authorization_policy_key v) (λ e. cc) ne

-- What belongs to a Workspace is of none of the operator's own kinds, and of no Flux kind.
pub Managed-ne_kind :
    (w : Workspace) {j : Kind} {other : ObjectKey}
    → Managed w j other
    → (workspaces ≢ j)
      × (modules ≢ j)
      × (module_templates ≢ j)
      × (helm_releases ≢ j)
      × (kustomizations ≢ j)
Managed-ne_kind w Managed.namespace = (λ e. cc, λ e. cc, λ e. cc, λ e. cc, λ e. cc)
Managed-ne_kind w (binding role) = (λ e. cc, λ e. cc, λ e. cc, λ e. cc, λ e. cc)
Managed-ne_kind w quota = (λ e. cc, λ e. cc, λ e. cc, λ e. cc, λ e. cc)
Managed-ne_kind w limits = (λ e. cc, λ e. cc, λ e. cc, λ e. cc, λ e. cc)
Managed-ne_kind w policy = (λ e. cc, λ e. cc, λ e. cc, λ e. cc, λ e. cc)
Managed-ne_kind w peer = (λ e. cc, λ e. cc, λ e. cc, λ e. cc, λ e. cc)
Managed-ne_kind w authorization = (λ e. cc, λ e. cc, λ e. cc, λ e. cc, λ e. cc)
