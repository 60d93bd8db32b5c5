-- ===== src/Addons/Reconcile.antt =====
-- The reconcile loop of internal/controller/addons/module_controller.go, and its handling of
-- errors. As in the Workspace controller, `ok tt` ends the work on the request, and `err` is tried
-- again.
pub mod Laws
pub mod Success
use otterscale_operator.Common.{
  String, Bool, true, false, not, List, [], Option, none, some, if◌then◌else◌,
}
use otterscale_operator.Common.Exec.{
  Error, template_not_found, template_invalid, Result, ok, err, Exec, pure, raise, ◌>>=◌, ◌>>◌,
}
use otterscale_operator.Api.Meta.{ObjectKey}
use otterscale_operator.Api.Module.{Module, ModuleTemplate}
use otterscale_operator.Api.Owned.{modules}
use otterscale_operator.Kube.{Kube}
use otterscale_operator.Workspace.Namespace.{is_zero}
use otterscale_operator.Controller.{
  Event, Recorder, World, on_cluster, eventf, error_text, branch, attempt,
}
use otterscale_operator.Module.{module_finalizer}
use otterscale_operator.Addons.{fetch_module_template, reconcile_resources}
use otterscale_operator.Addons.Cleanup.{reconcile_delete}
use otterscale_operator.Addons.Status.{update_status, set_ready_condition_false}

abbrev pub error_reason : Error → String
error_reason (template_not_found _) = "TemplateNotFound"
error_reason (template_invalid _ _) = "TemplateInvalid"
error_reason _ = "ReconcileError"

-- The permanent errors are not returned.
abbrev pub returned_error : Error → Option Error
returned_error (template_not_found _) = none
returned_error (template_invalid _ _) = none
returned_error e = some e

abbrev pub return_error : {S : Type 0} → Option Error → Exec S (Unit {0})
return_error none = pure tt
return_error (some e) = raise e

abbrev pub warning : (K : Kube) → Error → Event
warning K e = record {
  event_type = "Warning";
  reason = error_reason e;
  action = "Reconcile";
  note = error_text K e;
  args = [];
}

unfoldable pub handle_reconcile_error :
    (K : Kube) → Recorder → Module → Error → Exec (World K) (Unit {0})
unfolding set_ready_condition_false error_text
handle_reconcile_error K recorder m e = do
  set_ready_condition_false K m (error_reason e) (error_text K e)
  eventf K recorder (warning K e)
  return_error (returned_error e)

abbrev pub with_finalizer : Kube → Module → Module
with_finalizer K m = record m {
  meta = record m.meta { finalizers = K.add_finalizer m.meta.finalizers module_finalizer };
}

-- Step 3. The patch leaves the server's answer in the object.
unfoldable pub ensure_finalizer : (K : Kube) → Module → Exec K.State Module
ensure_finalizer K m =
    if not (K.contains_finalizer m.meta.finalizers module_finalizer)
    then K.patch modules m (with_finalizer K m)
    else pure m

-- Steps 5 and 6.
unfoldable pub sync :
    (K : Kube) → Recorder → String → Module → ModuleTemplate → Exec (World K) (Unit {0})
unfolding reconcile_resources handle_reconcile_error update_status
sync K recorder version m mt =
    attempt (on_cluster K (reconcile_resources K m mt version))
      (handle_reconcile_error K recorder m) (λ _. update_status K recorder m mt)

-- Steps 4 to 6.
unfoldable pub reconcile_live : (K : Kube) → Recorder → String → Module → Exec (World K) (Unit {0})
unfolding fetch_module_template sync handle_reconcile_error
reconcile_live K recorder version m s =
    branch (handle_reconcile_error K recorder m) (sync K recorder version m)
      (fetch_module_template K m.body.spec.template_ref s.cluster, s)

-- Steps 2 to 6.
unfoldable pub reconcile_found : (K : Kube) → Recorder → String → Module → Exec (World K) (Unit {0})
unfolding reconcile_delete ensure_finalizer reconcile_live
reconcile_found K recorder version m =
    if not (is_zero m.meta.deletion_timestamp)
    then on_cluster K (reconcile_delete K m)
    else on_cluster K (ensure_finalizer K m) >>= reconcile_live K recorder version

unfoldable pub reconcile : (K : Kube) → Recorder → String → ObjectKey → Exec (World K) (Unit {0})
unfolding reconcile_found
reconcile K recorder version request s =
    branch (λ e. return_error (K.ignore_not_found e)) (reconcile_found K recorder version)
      (K.get modules request s.cluster, s)
