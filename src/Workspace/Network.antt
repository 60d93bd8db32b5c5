-- ===== src/Workspace/Network.antt =====
-- internal/core/workspace/network_isolation.go
pub mod Laws
pub mod Admission
use otterscale_operator.Common.{
  String, Bool, true, false, not, ◌||◌, List, [], ◌∷◌, ◌++◌, map, some, if◌then◌else◌,
}
use otterscale_operator.Common.Exec.{Exec, filter_error, ◌>>=◌, ◌>>◌}
use otterscale_operator.Api.Meta.{ObjectKey, Object}
use otterscale_operator.Api.Workspace.{Workspace}
use otterscale_operator.Api.Owned.{
  network_policies, peer_authentications, authorization_policies, named, NetworkPolicyIngressRule,
  NetworkPolicySpec, pod_selector, namespace_selector, PeerAuthenticationSpec, unset, strict,
  AuthorizationPolicySpec, allow,
}
use otterscale_operator.Kube.{Kube, with_controller}
use otterscale_operator.Workspace.Helpers.{
  relabel, ignore_no_match_not_found, network_policy_name, peer_authentication_name,
  authorization_policy_name,
}

abbrev pub network_policy_key : Workspace → ObjectKey
network_policy_key w = record { namespace = w.body.spec.namespace; name = network_policy_name }

abbrev pub peer_authentication_key : Workspace → ObjectKey
peer_authentication_key w = record {
  namespace = w.body.spec.namespace;
  name = peer_authentication_name;
}

abbrev pub authorization_policy_key : Workspace → ObjectKey
authorization_policy_key w = record {
  namespace = w.body.spec.namespace;
  name = authorization_policy_name;
}

-- The specs of the three literals, before the mutate function.
abbrev pub no_network_policy : NetworkPolicySpec
no_network_policy = record { pod_selector = []; policy_types = []; ingress = [] }

abbrev pub no_peer_authentication : PeerAuthenticationSpec
no_peer_authentication = record { selector = []; mtls_mode = unset }

abbrev pub no_authorization_policy : AuthorizationPolicySpec
no_authorization_policy = record { selector = []; rules = []; action = allow }

abbrev pub same_namespace_rule : NetworkPolicyIngressRule
same_namespace_rule = record { from = pod_selector [] ∷ [] }

abbrev pub allowed_namespace_rule : String → NetworkPolicyIngressRule
allowed_namespace_rule namespace = record {
  from = namespace_selector (("kubernetes.io/metadata.name", namespace) ∷ []) ∷ [];
}

-- The loop of the source appends a rule for each allowed namespace.
abbrev pub network_policy_spec : Workspace → NetworkPolicySpec
network_policy_spec w = record {
  pod_selector = [];
  policy_types = "Ingress" ∷ [];
  ingress =
      same_namespace_rule
      ∷ map allowed_namespace_rule w.body.spec.network_isolation.allowed_namespaces;
}

abbrev pub peer_authentication_spec : PeerAuthenticationSpec
peer_authentication_spec = record { selector = []; mtls_mode = strict }

abbrev pub authorization_policy_spec : Workspace → AuthorizationPolicySpec
authorization_policy_spec w = record {
  selector = [];
  rules =
      record {
        from = (w.body.spec.namespace ∷ w.body.spec.network_isolation.allowed_namespaces) ∷ [];
      }
      ∷ [];
  action = allow;
}

unfoldable pub reconcile_network_policy :
    (K : Kube) → Workspace → String → Bool → Exec K.State (Unit {0})
reconcile_network_policy K w version istio_enabled =
    if not w.body.spec.network_isolation.enabled || istio_enabled
    then filter_error K.ignore_not_found (K.delete network_policies (network_policy_key w))
    else K.create_or_update network_policies (named (network_policy_key w) no_network_policy)
        (λ policy. with_controller K w.meta (relabel w version (network_policy_spec w) policy))

unfoldable pub reconcile_peer_authentication :
    (K : Kube) → Workspace → String → Bool → Exec K.State (Unit {0})
reconcile_peer_authentication K w version istio_enabled =
    if not w.body.spec.network_isolation.enabled || not istio_enabled
    then filter_error (ignore_no_match_not_found K)
        (K.delete peer_authentications (peer_authentication_key w))
    else K.create_or_update peer_authentications
        (named (peer_authentication_key w) no_peer_authentication)
        (λ peer. with_controller K w.meta (relabel w version peer_authentication_spec peer))

unfoldable pub reconcile_authorization_policy :
    (K : Kube) → Workspace → String → Bool → Exec K.State (Unit {0})
reconcile_authorization_policy K w version istio_enabled =
    if not w.body.spec.network_isolation.enabled || not istio_enabled
    then filter_error (ignore_no_match_not_found K)
        (K.delete authorization_policies (authorization_policy_key w))
    else K.create_or_update authorization_policies
        (named (authorization_policy_key w) no_authorization_policy)
        (λ policy.
          with_controller K w.meta (relabel w version (authorization_policy_spec w) policy))

unfoldable pub reconcile_network_isolation :
    (K : Kube) → Workspace → String → Bool → Exec K.State (Unit {0})
unfolding reconcile_network_policy reconcile_peer_authentication reconcile_authorization_policy
reconcile_network_isolation K w version istio_enabled = do
  reconcile_network_policy K w version istio_enabled
  reconcile_peer_authentication K w version istio_enabled
  reconcile_authorization_policy K w version istio_enabled
