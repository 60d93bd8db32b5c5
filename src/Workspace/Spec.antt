-- ===== src/Workspace/Spec.antt =====
-- What a Workspace asks for, written apart from how internal/core/workspace writes it.
use otterscale_operator.Common.{
  String, ◌==◌, Bool, List, [], ◌∷◌, map, Option, none, some, if◌then◌else◌,
}
use otterscale_operator.Common.Dict.{Dict, lookup}
use otterscale_operator.Api.Meta.{ObjectKey}
use otterscale_operator.Api.Workspace.{Workspace, WorkspaceMember, MemberRole}
use otterscale_operator.Api.Owned.{
  Subject, RoleBindingBody, NetworkPolicyIngressRule, NetworkPolicySpec, pod_selector,
  namespace_selector, PeerAuthenticationSpec, strict, AuthorizationPolicySpec, allow,
}

-- An object of the Workspace in its namespace.
abbrev pub place_of : Workspace → String → ObjectKey
place_of w name = record { namespace = w.body.spec.namespace; name = name }

abbrev pub place_of_namespace : Workspace → ObjectKey
place_of_namespace w = record { namespace = ""; name = w.body.spec.namespace }

-- The labels of the namespaced objects.
abbrev pub object_labels : Workspace → String → Dict String
object_labels w version =
    ("app.kubernetes.io/instance", w.meta.name)
    ∷ ("app.kubernetes.io/component", "workspace")
    ∷ ("app.kubernetes.io/part-of", "otterscale")
    ∷ ("app.kubernetes.io/managed-by", "otterscale-operator")
    ∷ ("app.kubernetes.io/version", version)
    ∷ []

-- The value of a label of the namespace, given the labels that were there before.
abbrev pub namespace_label : Workspace → String → Bool → Dict String → String → Option String
namespace_label w version istio before key =
    if "istio-injection" == key
    then (if istio then some "enabled" else none)
    else if "app.kubernetes.io/instance" == key
    then some w.meta.name
    else if "app.kubernetes.io/component" == key
    then some "workspace"
    else if "app.kubernetes.io/part-of" == key
    then some "otterscale"
    else if "app.kubernetes.io/managed-by" == key
    then some "otterscale-operator"
    else if "app.kubernetes.io/version" == key
    then some version
    else lookup key before

-- The members that have the role, in the order of the spec.
abbrev pub with_role : MemberRole → List WorkspaceMember → List WorkspaceMember
with_role role [] = []
with_role role (m ∷ ms) = let rest = with_role role ms in if m.role == role then m ∷ rest else rest

abbrev pub user_of : WorkspaceMember → Subject
user_of m = record { kind = "User"; api_group = "rbac.authorization.k8s.io"; name = m.subject }

-- The binding of a role to these members: to the ClusterRole of that name, and none for nobody.
abbrev pub binding_body : MemberRole → List WorkspaceMember → RoleBindingBody
binding_body role ms = record {
  subjects = map user_of ms;
  role_ref = record { kind = "ClusterRole"; api_group = "rbac.authorization.k8s.io"; name = role };
}

abbrev pub wanted_binding : MemberRole → List WorkspaceMember → Option RoleBindingBody
wanted_binding role [] = none
wanted_binding role (m ∷ ms) = some (binding_body role (m ∷ ms))

-- Traffic comes in from the pods of the namespace itself and from the allowed namespaces.
abbrev pub from_namespace : String → NetworkPolicyIngressRule
from_namespace n = record {
  from = namespace_selector (("kubernetes.io/metadata.name", n) ∷ []) ∷ [];
}

abbrev pub isolation_policy : Workspace → NetworkPolicySpec
isolation_policy w = record {
  pod_selector = [];
  policy_types = "Ingress" ∷ [];
  ingress =
      record { from = pod_selector [] ∷ [] }
      ∷ map from_namespace w.body.spec.network_isolation.allowed_namespaces;
}

-- In the mesh, only mutual TLS, and only from the same namespaces.
abbrev pub isolation_tls : PeerAuthenticationSpec
isolation_tls = record { selector = []; mtls_mode = strict }

abbrev pub isolation_access : Workspace → AuthorizationPolicySpec
isolation_access w = record {
  selector = [];
  rules =
      record {
        from = (w.body.spec.namespace ∷ w.body.spec.network_isolation.allowed_namespaces) ∷ [];
      }
      ∷ [];
  action = allow;
}
