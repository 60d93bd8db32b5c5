-- ===== src/Api/Owned.antt =====
-- What the operator writes of the foreign kinds that it manages. Of a Namespace it writes the
-- metadata alone; a foreign spec that it only passes on is a `Document`.
use otterscale_operator.Common.{String, List}
use otterscale_operator.Common.Dict.{Dict}
use otterscale_operator.Api.Meta.{Document, Object, ObjectKey, empty_meta, Condition}
use otterscale_operator.Api.Workspace.{WorkspaceBody}
use otterscale_operator.Api.Module.{HelmReleaseSpec, ModuleBody, ModuleTemplateBody}

pub record Subject : Type 0 where
  pub kind : String
  pub api_group : String
  pub name : String

pub record RoleRef : Type 0 where
  pub kind : String
  pub api_group : String
  pub name : String

pub record RoleBindingBody : Type 0 where
  pub subjects : List Subject
  pub role_ref : RoleRef

-- A peer is a selector of pods in the policy's own namespace, or of namespaces by label.
pub data NetworkPolicyPeer : Type 0 where
  pod_selector : Dict String → NetworkPolicyPeer
  namespace_selector : Dict String → NetworkPolicyPeer

pub record NetworkPolicyIngressRule : Type 0 where
  pub from : List NetworkPolicyPeer

pub record NetworkPolicySpec : Type 0 where
  pub pod_selector : Dict String
  pub policy_types : List String
  pub ingress : List NetworkPolicyIngressRule

pub data MutualTlsMode : Type 0 where
  unset disable permissive strict : MutualTlsMode

pub record PeerAuthenticationSpec : Type 0 where
  pub selector : Dict String
  pub mtls_mode : MutualTlsMode

pub data PolicyAction : Type 0 where
  allow deny audit custom : PolicyAction

-- An Istio rule as far as it is used: the source namespaces of each `from`.
pub record AuthorizationRule : Type 0 where
  pub from : List (List String)

pub record AuthorizationPolicySpec : Type 0 where
  pub selector : Dict String
  pub rules : List AuthorizationRule
  pub action : PolicyAction

pub record HelmReleaseBody : Type 0 where
  pub spec : HelmReleaseSpec
  pub conditions : List Condition

pub record KustomizationBody : Type 0 where
  pub spec : Document
  pub conditions : List Condition

pub data Kind : Type 0 where
  namespaces role_bindings resource_quotas limit_ranges network_policies : Kind
  peer_authentications authorization_policies helm_releases kustomizations : Kind
  workspaces modules module_templates : Kind

-- The two kinds that the server knows only with Istio.
abbrev pub IsIstio : Kind → Type 0
IsIstio peer_authentications = Unit {0}
IsIstio authorization_policies = Unit {0}
IsIstio _ = ⊥

abbrev pub Body : Kind → Type 0
Body namespaces = Unit {0}
Body role_bindings = RoleBindingBody
Body resource_quotas = Document
Body limit_ranges = Document
Body network_policies = NetworkPolicySpec
Body peer_authentications = PeerAuthenticationSpec
Body authorization_policies = AuthorizationPolicySpec
Body helm_releases = HelmReleaseBody
Body kustomizations = KustomizationBody
Body workspaces = WorkspaceBody
Body modules = ModuleBody
Body module_templates = ModuleTemplateBody

abbrev pub Resource : Kind → Type 0
Resource k = Object (Body k)

-- A literal that sets the name, and the namespace of a namespaced kind, and leaves the rest zero.
abbrev pub named : {B : Type 0} → ObjectKey → B → Object B
named key zero_body = record {
  meta = record empty_meta { name = key.name; namespace = key.namespace };
  body = zero_body;
}
