-- ===== src/Workspace/Network/Admission.antt =====
-- Whom the policies of internal/core/workspace/network_isolation.go let in, by what Kubernetes and
-- Istio document of a NetworkPolicy and of an AuthorizationPolicy that allows.
use mathlib.Core.List.{Memᴰ}
use mathlib.Core.List.Memᴰ
use otterscale_operator.Common.{String, ◌≡◌, some, List, [], ◌∷◌, ◌⊎◌}
use otterscale_operator.Common.Dict.{Dict, lookup}
use otterscale_operator.Api.Workspace.{Workspace}
use otterscale_operator.Api.Owned.{
  NetworkPolicyPeer, pod_selector, namespace_selector, NetworkPolicyIngressRule, NetworkPolicySpec,
  AuthorizationRule, AuthorizationPolicySpec,
}

-- A pod that sends, with its labels and those of its namespace.
pub record Source : Type 0 where
  pub namespace : String
  pub namespace_labels : Dict String
  pub pod_labels : Dict String

-- All labels of a selector are there; an empty selector selects everything.
abbrev Matches : Dict String → Dict String → Type 0
Matches [] labels = Unit {0}
Matches ((k, v) ∷ selector) labels = (lookup k labels ≡ some v) × Matches selector labels

-- A selector of pods alone is about the pods of the namespace of the policy.
abbrev Selects : String → Source → NetworkPolicyPeer → Type 0
Selects own x (pod_selector selector) = (x.namespace ≡ own) × Matches selector x.pod_labels
Selects own x (namespace_selector selector) = Matches selector x.namespace_labels

-- One peer of one rule selects the source.
abbrev pub Admits : NetworkPolicySpec → String → Source → Type 0
Admits policy own x =
    (rule : NetworkPolicyIngressRule) × Memᴰ rule policy.ingress
    × (peer : NetworkPolicyPeer) × Memᴰ peer rule.from
    × Selects own x peer

-- One list of namespaces of one rule has the namespace of the source.
abbrev pub Allows : AuthorizationPolicySpec → Source → Type 0
Allows policy x =
    (rule : AuthorizationRule) × Memᴰ rule policy.rules
    × (namespaces : List String) × Memᴰ namespaces rule.from
    × Memᴰ x.namespace namespaces

-- The namespace of the Workspace, and those that it allows.
abbrev pub IsWelcome : Workspace → Source → Type 0
IsWelcome w x =
    (x.namespace ≡ w.body.spec.namespace)
    ⊎ Memᴰ x.namespace w.body.spec.network_isolation.allowed_namespaces
