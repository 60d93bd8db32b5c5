-- ===== src/Workspace/Helpers.antt =====
-- internal/core/workspace/helpers.go
pub mod Laws
use otterscale_operator.Common.{
  String, Bool, false, List, [], ◌∷◌, Option, none, some, ◌==◌, ◌||◌, if◌then◌else◌,
}
use otterscale_operator.Common.Dict.{Dict}
use otterscale_operator.Common.Exec.{Error}
use otterscale_operator.Api.Meta.{OwnerReference, Object}
use otterscale_operator.Api.Workspace.{Workspace}
use otterscale_operator.Kube.{Kube}
use otterscale_operator.Labels.{standard}

abbrev pub role_binding_name : String
role_binding_name = "workspace-role-binding"

abbrev pub resource_quota_name : String
resource_quota_name = "workspace-resource-quota"

abbrev pub limit_range_name : String
limit_range_name = "workspace-limit-range"

abbrev pub network_policy_name : String
network_policy_name = "workspace-network-policy"

abbrev pub peer_authentication_name : String
peer_authentication_name = "workspace-peer-authentication"

abbrev pub authorization_policy_name : String
authorization_policy_name = "workspace-authorization-policy"

abbrev pub user_label_prefix : String
user_label_prefix = "user.otterscale.io/"

abbrev pub condition_type_ready : String
condition_type_ready = "Ready"

unfoldable pub labels_for_workspace : String → String → Dict String
labels_for_workspace workspace version = standard "" workspace "workspace" version

unfoldable pub is_owned : List OwnerReference → String → Bool
is_owned [] uid = false
is_owned (ref ∷ refs) uid = ref.uid == uid || is_owned refs uid

-- At an error that is not nil; `none` is nil.
unfoldable pub ignore_no_match_not_found : Kube → Error → Option Error
ignore_no_match_not_found K e = if K.is_no_match_error e then none else K.ignore_not_found e

-- What the mutate functions of the namespaced objects write, but for the owner: the labels of the
-- workspace and a whole new body.
abbrev pub relabel : {B : Type 0} → Workspace → String → B → Object B → Object B
relabel w version body o = record {
  meta = record o.meta { labels = some (labels_for_workspace w.meta.name version) };
  body = body;
}
