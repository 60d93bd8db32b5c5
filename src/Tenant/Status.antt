-- ===== src/Tenant/Status.antt =====
-- `updateStatus` and `setReadyConditionFalse` of internal/controller/tenant/workspace_controller.go
pub mod Laws
pub mod Settled
use otterscale_operator.Common.{
  String, ◌<>◌, Bool, true, false, not, List, [], ◌∷◌, Option, none, some, if◌then◌else◌,
}
use otterscale_operator.Common.Dict.{Dict, lookup, insert}
use otterscale_operator.Common.Exec.{Exec, pure, ◌>>◌}
use otterscale_operator.Api.Meta.{
  Condition, condition_true, condition_false, Document, ResourceReference,
}
use otterscale_operator.Api.Workspace.{
  Workspace, WorkspaceMember, WorkspaceStatus, MemberRole, member_role_admin, member_role_edit,
  member_role_view,
}
use otterscale_operator.Api.Owned.{workspaces}
use otterscale_operator.Kube.{Kube}
use otterscale_operator.Workspace.Helpers.{
  role_binding_name, resource_quota_name, limit_range_name, network_policy_name,
  peer_authentication_name, authorization_policy_name, condition_type_ready,
}
use otterscale_operator.Controller.{
  Event, Recorder, World, on_cluster, eventf, log_error, sort_conditions,
}

-- The map `rolesInUse`. A missing key reads as false.
unfoldable pub roles_in_use : Dict Bool → List WorkspaceMember → Dict Bool
unfolding insert
roles_in_use roles [] = roles
roles_in_use roles (m ∷ members) = roles_in_use (insert m.role true roles) members

abbrev pub is_in_use : Option Bool → Bool
is_in_use none = false
is_in_use (some b) = b

abbrev pub role_binding_ref : String → MemberRole → ResourceReference
role_binding_ref namespace role = record {
  name = (role_binding_name <> "-") <> role;
  namespace = namespace;
}

abbrev pub ordered_roles : List MemberRole
ordered_roles = member_role_admin ∷ member_role_edit ∷ member_role_view ∷ []

-- The loop over the ordered roles.
unfoldable pub role_refs : String → Dict Bool → List MemberRole → List ResourceReference
unfolding lookup
role_refs namespace roles [] = []
role_refs namespace roles (role ∷ rest) =
    let refs = role_refs namespace roles rest in
    if is_in_use (lookup role roles) then role_binding_ref namespace role ∷ refs else refs

abbrev pub ref_if : Bool → String → String → Option ResourceReference
ref_if b name namespace = if b then some (record { name = name; namespace = namespace }) else none

abbrev pub is_set : Option Document → Bool
is_set none = false
is_set (some _) = true

-- The references and conditions that `updateStatus` computes; `istio_enabled` is its own reading
-- of the detector.
unfoldable pub new_status : Kube → Workspace → Bool → WorkspaceStatus
unfolding roles_in_use role_refs sort_conditions
new_status K w istio_enabled =
    let spec = w.body.spec in
    let ns = spec.namespace in
    record {
      observed_generation = w.meta.generation;
      namespace_ref = some (record { name = ns; namespace = "" });
      resource_quota_ref = ref_if (is_set spec.resource_quota) resource_quota_name ns;
      limit_range_ref = ref_if (is_set spec.limit_range) limit_range_name ns;
      role_binding_refs = role_refs ns (roles_in_use [] spec.members) ordered_roles;
      peer_authentication_ref =
          if spec.network_isolation.enabled
          then ref_if istio_enabled peer_authentication_name ns
          else none;
      authorization_policy_ref =
          if spec.network_isolation.enabled
          then ref_if istio_enabled authorization_policy_name ns
          else none;
      network_policy_ref =
          if spec.network_isolation.enabled
          then ref_if (not istio_enabled) network_policy_name ns
          else none;
      conditions = sort_conditions (
          K.set_status_condition w.body.status.conditions (record {
            type = condition_type_ready;
            status = condition_true;
            reason = "Reconciled";
            message = "Workspace resources are successfully reconciled";
            observed_generation = w.meta.generation;
            last_transition_time = none;
          }));
    }

abbrev pub with_status : Workspace → WorkspaceStatus → Workspace
with_status w status = record w { body = record w.body { status = status } }

abbrev pub reconciled_event : Workspace → Event
reconciled_event w = record {
  event_type = "Normal";
  reason = "Reconciled";
  action = "Reconcile";
  note = "Workspace resources reconciled for namespace %s";
  args = w.body.spec.namespace ∷ [];
}

unfoldable pub update_status : (K : Kube) → Recorder → Workspace → Bool → Exec (World K) (Unit {0})
unfolding new_status
update_status K recorder w istio_enabled =
    let status = new_status K w istio_enabled in
    if not (K.equal_workspace_status w.body.status status)
    then (do
      on_cluster K (K.patch_status workspaces w (with_status w status))
      eventf K recorder (reconciled_event w))
    else pure tt

abbrev pub not_ready : Workspace → String → String → Condition
not_ready w reason message = record {
  type = condition_type_ready;
  status = condition_false;
  reason = reason;
  message = message;
  observed_generation = w.meta.generation;
  last_transition_time = none;
}

unfoldable pub set_ready_condition_false :
    (K : Kube) → Workspace → String → String → Exec (World K) (Unit {0})
set_ready_condition_false K w reason message =
    let status = record w.body.status {
      conditions = K.set_status_condition w.body.status.conditions (not_ready w reason message);
      observed_generation = w.meta.generation;
    } in
    log_error (on_cluster K (K.patch_status workspaces w (with_status w status)))
