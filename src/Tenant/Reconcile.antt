-- ===== src/Tenant/Reconcile.antt =====
-- The reconcile loop of internal/controller/tenant/workspace_controller.go. An empty `ctrl.Result`
-- with no error, which ends the work on the request, is `ok tt`; with an error, which makes
-- controller-runtime try again with backoff, it is `err`.
pub mod Laws
pub mod Success
use otterscale_operator.Common.{String, Bool, List, [], map, Option, none, some, false, ◌==◌}
use otterscale_operator.Common.Exec.{Error, namespace_conflict, ok, err, Exec, pure, raise, ◌>>◌}
use otterscale_operator.Api.Meta.{ObjectKey}
use otterscale_operator.Api.Workspace.{Workspace}
use otterscale_operator.Api.Owned.{workspaces}
use otterscale_operator.Kube.{Kube}
use otterscale_operator.Workspace.Namespace.{reconcile_namespace}
use otterscale_operator.Workspace.RoleBindings.{reconcile_role_bindings}
use otterscale_operator.Workspace.Constraints.{reconcile_resource_quota, reconcile_limit_range}
use otterscale_operator.Workspace.Network.{reconcile_network_isolation}
use otterscale_operator.Controller.{
  Recorder, World, on_cluster, eventf, error_text, branch, attempt,
}
use otterscale_operator.Tenant.Status.{update_status, set_ready_condition_false}

unfoldable pub reconcile_resources :
    (K : Kube) → Workspace → String → Bool → Exec K.State (Unit {0})
reconcile_resources K w version istio_enabled = do
  reconcile_namespace K w version istio_enabled
  reconcile_role_bindings K w version
  reconcile_resource_quota K w version
  reconcile_limit_range K w version
  reconcile_network_isolation K w version istio_enabled

-- The reason that is reported, and what is returned: a conflict is not retried.
abbrev pub error_reason : Error → String
error_reason (namespace_conflict _) = "NamespaceConflict"
error_reason _ = "ReconcileError"

abbrev pub returned_error : Error → Option Error
returned_error (namespace_conflict _) = none
returned_error e = some e

abbrev pub return_error : {S : Type 0} → Option Error → Exec S (Unit {0})
return_error none = pure tt
return_error (some e) = raise e

unfoldable pub handle_reconcile_error :
    (K : Kube) → Recorder → Workspace → Error → Exec (World K) (Unit {0})
unfolding set_ready_condition_false error_text
handle_reconcile_error K recorder w e = do
  set_ready_condition_false K w (error_reason e) (error_text K e)
  eventf K recorder (record {
    event_type = "Warning";
    reason = error_reason e;
    action = "Reconcile";
    note = error_text K e;
    args = [];
  })
  return_error (returned_error e)

-- The flag of the detector is read twice, at the start of the sync and by `updateStatus`; a
-- refresh may fall between the two readings.
unfoldable pub reconcile_found :
    (K : Kube) → Recorder → String → Bool → Bool → Workspace → Exec (World K) (Unit {0})
unfolding reconcile_resources handle_reconcile_error update_status
reconcile_found K recorder version istio_at_sync istio_at_status w =
    attempt (on_cluster K (reconcile_resources K w version istio_at_sync))
      (handle_reconcile_error K recorder w) (λ _. update_status K recorder w istio_at_status)

unfoldable pub reconcile :
    (K : Kube) → Recorder → String → Bool → Bool → ObjectKey → Exec (World K) (Unit {0})
unfolding reconcile_found
reconcile K recorder version istio_at_sync istio_at_status request s =
    branch (λ e. return_error (K.ignore_not_found e))
      (reconcile_found K recorder version istio_at_sync istio_at_status)
      (K.get workspaces request s.cluster, s)

-- `mapCRDToWorkspaces`, after its refresh of the detector: a request for each Workspace.
unfoldable pub map_crd_to_workspaces : (K : Kube) → K.State → List ObjectKey
map_crd_to_workspaces K s = elim (K.list workspaces s) [
  | err _ ↦ []
  | ok items ↦ map (λ w. record { namespace = ""; name = w.meta.name }) items
]

-- `istioCRDPredicate`, at the group of a CustomResourceDefinition, or at an object of another type.
unfoldable pub istio_crd_predicate : Option String → Bool
istio_crd_predicate none = false
istio_crd_predicate (some group) = group == "security.istio.io"
