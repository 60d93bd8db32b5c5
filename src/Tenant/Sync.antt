-- ===== src/Tenant/Sync.antt =====
-- A sync that succeeds leaves everything that the Workspace owns as its spec says, and a sync
-- touches nothing else.
use otterscale_operator.Common.{String, ◌≡◌, Bool, inl}
use otterscale_operator.Common.Dict.{Dict}
use otterscale_operator.Common.Exec.{Exec, ok, bind-eq-ok, ◌>>◌}
use otterscale_operator.Api.Meta.{ObjectKey, entries}
use otterscale_operator.Api.Workspace.{
  Workspace, MemberRole, member_role_admin, member_role_edit, member_role_view,
}
use otterscale_operator.Api.Owned.{
  Kind, namespaces, role_bindings, resource_quotas, limit_ranges, network_policies,
  peer_authentications, authorization_policies,
}
use otterscale_operator.Kube.{Kube, Differ}
use otterscale_operator.Kube.Laws.{ClientLaws, OwnershipLaws, ErrorLaws, current}
use otterscale_operator.Kube.Sync.{OnlyAt-Untouched, Untouched, Untouched-then, Untouched-eq}
use otterscale_operator.Workspace.Desired.{Desired, Desired-of_eq}
use otterscale_operator.Workspace.Namespace.{namespace_key, new_namespace, reconcile_namespace}
use otterscale_operator.Workspace.Spec.{place_of, with_role, wanted_binding}
use otterscale_operator.Workspace.Namespace.Laws.{
  Labelled, Labelled-of_eq, reconcile_namespace-Labelled, reconcile_namespace-OnlyAt,
}
use otterscale_operator.Workspace.RoleBindings.{
  role_binding_key, known_roles, reconcile_role_bindings,
}
use otterscale_operator.Workspace.RoleBindings.Laws.{
  RoleDesired, NoBinding, NoBinding-of_kind, reconcile_role_bindings-Desired,
  reconcile_role_bindings-Untouched,
}
use otterscale_operator.Workspace.Constraints.{
  resource_quota_key, limit_range_key, reconcile_resource_quota, reconcile_limit_range,
}
use otterscale_operator.Workspace.Constraints.Laws.{
  reconcile_resource_quota-Desired, reconcile_limit_range-Desired, reconcile_resource_quota-OnlyAt,
  reconcile_limit_range-OnlyAt,
}
use otterscale_operator.Workspace.Network.{
  network_policy_key, peer_authentication_key, authorization_policy_key,
  reconcile_network_isolation,
}
use otterscale_operator.Workspace.Network.Laws.{
  NetworkPolicyDesired, PeerAuthenticationDesired, AuthorizationPolicyDesired,
  reconcile_network_isolation-Desired, reconcile_network_isolation-Untouched,
}
use otterscale_operator.Tenant.Reconcile.{reconcile_resources}

module _ (K : Kube) (C : ClientLaws K) (w : Workspace) (version : String) (istio : Bool) where
  -- An object that the workspace does not own.
  pub record Outside (j : Kind) (other : ObjectKey) : Type 0 where
    pub namespace : Differ namespaces (namespace_key w) j other
    pub bindings : NoBinding w j other known_roles
    pub quota : Differ resource_quotas (resource_quota_key w) j other
    pub limits : Differ limit_ranges (limit_range_key w) j other
    pub policy : Differ network_policies (network_policy_key w) j other
    pub peer : Differ peer_authentications (peer_authentication_key w) j other
    pub authorization : Differ authorization_policies (authorization_policy_key w) j other

  module _ (j : Kind) (other : ObjectKey) where
    abbrev OutsideNetwork : Type 0
    OutsideNetwork =
        Differ network_policies (network_policy_key w) j other
        × Differ peer_authentications (peer_authentication_key w) j other
        × Differ authorization_policies (authorization_policy_key w) j other

    limits-Untouched :
        Differ limit_ranges (limit_range_key w) j other
        → OutsideNetwork
        → Untouched K j other
            (reconcile_limit_range K w version >> reconcile_network_isolation K w version istio)
    limits-Untouched lr (np, pa, ap) =
        Untouched-then K j other (reconcile_limit_range K w version)
          (reconcile_network_isolation K w version istio)
          (OnlyAt-Untouched K j other limit_ranges (limit_range_key w)
            (reconcile_limit_range K w version) (reconcile_limit_range-OnlyAt K C w version) lr)
          (reconcile_network_isolation-Untouched K C w version istio j other np pa ap)

    quota-Untouched :
        Differ resource_quotas (resource_quota_key w) j other
        → Differ limit_ranges (limit_range_key w) j other
        → OutsideNetwork
        → Untouched K j other (
            reconcile_resource_quota K w version
            >> (reconcile_limit_range K w version >> reconcile_network_isolation K w version istio))
    quota-Untouched rq lr net =
        Untouched-then K j other (reconcile_resource_quota K w version)
          (reconcile_limit_range K w version >> reconcile_network_isolation K w version istio)
          (OnlyAt-Untouched K j other resource_quotas (resource_quota_key w)
            (reconcile_resource_quota K w version) (reconcile_resource_quota-OnlyAt K C w version)
            rq)
          (limits-Untouched lr net)

    bindings-Untouched :
        NoBinding w j other known_roles
        → Differ resource_quotas (resource_quota_key w) j other
        → Differ limit_ranges (limit_range_key w) j other
        → OutsideNetwork
        → Untouched K j other (
            reconcile_role_bindings K w version
            >> (reconcile_resource_quota K w version
                >> (reconcile_limit_range K w version
                    >> reconcile_network_isolation K w version istio)))
    bindings-Untouched rb rq lr net =
        Untouched-then K j other (reconcile_role_bindings K w version)
          (reconcile_resource_quota K w version
            >> (reconcile_limit_range K w version >> reconcile_network_isolation K w version istio))
          (reconcile_role_bindings-Untouched K C w version j other rb) (quota-Untouched rq lr net)

    -- Whether the sync succeeds or fails, an object that the workspace does not own is as before.
    pub reconcile_resources-Untouched :
        Outside j other → Untouched K j other (reconcile_resources K w version istio)
    unfolding reconcile_resources
    reconcile_resources-Untouched o =
        Untouched-then K j other (reconcile_namespace K w version istio) _
          (OnlyAt-Untouched K j other namespaces (namespace_key w)
            (reconcile_namespace K w version istio) (reconcile_namespace-OnlyAt K w version istio C)
            o.namespace)
          (bindings-Untouched o.bindings o.quota o.limits (o.policy, o.peer, o.authorization))

  -- The cluster holds what the spec asks for, in the version and for the flag.
  pub record Synced (labels_before : Dict String) (s : K.State) : Type 0 where
    pub namespace : Labelled K w version istio labels_before s
    pub admin : RoleDesired K w version member_role_admin s
    pub edit : RoleDesired K w version member_role_edit s
    pub view : RoleDesired K w version member_role_view s
    pub quota :
        Desired K w version resource_quotas
          (place_of w "workspace-resource-quota")
          w.body.spec.resource_quota
          s
    pub limits :
        Desired K w version limit_ranges
          (place_of w "workspace-limit-range")
          w.body.spec.limit_range
          s
    pub policy : NetworkPolicyDesired K w version istio s
    pub peer : PeerAuthenticationDesired K w version istio s
    pub authorization : AuthorizationPolicyDesired K w version istio s

  abbrev after_bindings : Exec K.State (Unit {0})
  after_bindings =
      reconcile_resource_quota K w version
      >> (reconcile_limit_range K w version >> reconcile_network_isolation K w version istio)

  binding_kept :
      (role : MemberRole) (s : K.State) {t : K.State}
      → after_bindings s ≡ (ok tt, t)
      → RoleDesired K w version role s
      → RoleDesired K w version role t
  binding_kept role s h d =
      Desired-of_eq K w version role_bindings (role_binding_key w role)
        (wanted_binding role (with_role role w.body.spec.members))
        (Untouched-eq K role_bindings (role_binding_key w role) after_bindings
          (quota-Untouched role_bindings (role_binding_key w role) (inl (λ e. cc)) (inl (λ e. cc))
            (inl (λ e. cc), inl (λ e. cc), inl (λ e. cc)))
          h)
        d

  -- After a sync that succeeds, the cluster holds the namespace, owned and labelled, one binding
  -- for each role that has members and none for the others, the quota and the limit range of the
  -- spec or none, and the objects of one isolation mechanism.
  pub reconcile_resources-Synced :
      OwnershipLaws K
      → ErrorLaws K
      → (s : K.State) {t : K.State} → reconcile_resources K w version istio s ≡ (ok tt, t)
      → Synced (entries (current K namespaces (new_namespace w) s).meta.labels) t
  unfolding reconcile_resources
  reconcile_resources-Synced O E s {t} h =
      let net = reconcile_network_isolation K w version istio in
      let limits = reconcile_limit_range K w version >> net in
      let quota = reconcile_resource_quota K w version >> limits in
      let bindings = reconcile_role_bindings K w version >> quota in
      let (_, s1, namespace_ok, bindings_ok) =
        bind-eq-ok (reconcile_namespace K w version istio) (λ _. bindings) s h in
      let (_, s2, roles_ok, quota_ok) =
        bind-eq-ok (reconcile_role_bindings K w version) (λ _. quota) s1 bindings_ok in
      let (_, s3, rq_ok, limits_ok) =
        bind-eq-ok (reconcile_resource_quota K w version) (λ _. limits) s2 quota_ok in
      let (_, s4, lr_ok, net_ok) =
        bind-eq-ok (reconcile_limit_range K w version) (λ _. net) s3 limits_ok in
      let (a, e, v) = reconcile_role_bindings-Desired K C w version O E s1 roles_ok in
      let (np, pa, ap) = reconcile_network_isolation-Desired K C w version istio O E s4 net_ok in
      record {
        namespace =
            Labelled-of_eq K w version istio
              (entries (current K namespaces (new_namespace w) s).meta.labels)
              (Untouched-eq K namespaces (namespace_key w) bindings
                (bindings-Untouched namespaces (namespace_key w)
                  (NoBinding-of_kind w namespaces (namespace_key w) known_roles (λ e. cc))
                  (inl (λ e. cc)) (inl (λ e. cc)) (inl (λ e. cc), inl (λ e. cc), inl (λ e. cc)))
                bindings_ok)
              (reconcile_namespace-Labelled K w version istio C s O namespace_ok);
        admin = binding_kept member_role_admin s2 quota_ok a;
        edit = binding_kept member_role_edit s2 quota_ok e;
        view = binding_kept member_role_view s2 quota_ok v;
        quota =
            Desired-of_eq K w version resource_quotas (resource_quota_key w)
              w.body.spec.resource_quota
              (Untouched-eq K resource_quotas (resource_quota_key w) limits
                (limits-Untouched resource_quotas (resource_quota_key w) (inl (λ e. cc))
                  (inl (λ e. cc), inl (λ e. cc), inl (λ e. cc)))
                limits_ok)
              (reconcile_resource_quota-Desired K C w version O E s2 rq_ok);
        limits =
            Desired-of_eq K w version limit_ranges (limit_range_key w) w.body.spec.limit_range
              (Untouched-eq K limit_ranges (limit_range_key w) net
                (reconcile_network_isolation-Untouched K C w version istio limit_ranges
                  (limit_range_key w) (inl (λ e. cc)) (inl (λ e. cc)) (inl (λ e. cc)))
                net_ok)
              (reconcile_limit_range-Desired K C w version O E s3 lr_ok);
        policy = np;
        peer = pa;
        authorization = ap;
      }
