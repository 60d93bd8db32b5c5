-- ===== src/Addons/Status.antt =====
-- `updateStatus`, `setReadyConditionFalse` and the functions that observe a Flux object, of
-- internal/controller/addons/module_controller.go
pub mod Laws
pub mod Settled
pub mod Ready
use otterscale_operator.Common.{
  ℕ, String, ◌<>◌, Bool, not, List, [], ◌∷◌, Option, none, some, if◌then◌else◌,
}
use otterscale_operator.Common.Exec.{Result, ok, err, Exec, pure, ◌>>=◌, ◌>>◌}
use otterscale_operator.Api.Meta.{
  Condition, ConditionStatus, condition_true, condition_false, condition_unknown, ObjectKey, Object,
  ResourceReference,
}
use otterscale_operator.Api.Module.{Module, ModuleTemplate, ModuleStatus}
use otterscale_operator.Api.Owned.{
  modules, helm_releases, kustomizations, HelmReleaseBody, KustomizationBody,
}
use otterscale_operator.Kube.{Kube}
use otterscale_operator.Controller.{
  Event, Recorder, World, on_cluster, eventf, error_text, log_error, sort_conditions,
}
use otterscale_operator.Module.{condition_type_ready, target_namespace}
use otterscale_operator.Addons.{switch}

-- The three results of the observing functions.
pub record Observation : Type 0 where
  pub status : ConditionStatus
  pub reason : String
  pub message : String

abbrev pub observe_condition : String → Option Condition → Observation
observe_condition kind none = record {
  status = condition_unknown;
  reason = kind <> "Pending";
  message = kind <> " has no Ready condition yet";
}
observe_condition kind (some c) = record {
  status = c.status;
  reason = kind <> c.reason;
  message = c.message;
}

-- What the two functions that observe one kind have in common: `kind` is "HelmRelease" or
-- "Kustomization", and the reply is that of the read, with the conditions of the object read.
unfoldable pub observe : Kube → String → Result (List Condition) → Observation
unfolding error_text
observe K kind (err e) =
    if K.is_not_found e
    then record {
      status = condition_false;
      reason = kind <> "NotFound";
      message = "waiting for " <> (kind <> " to be created");
    }
    else record {
      status = condition_unknown;
      reason = kind <> "GetError";
      message = error_text K e;
    }
observe K kind (ok conditions) = observe_condition kind (K.find_status_condition conditions "Ready")

abbrev pub map_result : {A B : Type 0} → (A → B) → Result A → Result B
map_result f (ok a) = ok (f a)
map_result f (err e) = err e

unfoldable pub observe_helm_release_status : (K : Kube) → String → String → K.State → Observation
unfolding observe
observe_helm_release_status K name namespace s = observe K "HelmRelease" (
    map_result (λ (hr : Object HelmReleaseBody). hr.body.conditions)
      (K.get helm_releases (record { namespace = namespace; name = name }) s))

unfoldable pub observe_kustomization_status : (K : Kube) → String → String → K.State → Observation
unfolding observe
observe_kustomization_status K name namespace s = observe K "Kustomization" (
    map_result (λ (ks : Object KustomizationBody). ks.body.conditions)
      (K.get kustomizations (record { namespace = namespace; name = name }) s))

unfoldable pub observe_flux_resource_status :
    (K : Kube) → Module → ModuleTemplate → String → K.State → Observation
unfolding observe_helm_release_status observe_kustomization_status
observe_flux_resource_status K m mt namespace s =
    switch mt.body.spec.helm_release mt.body.spec.kustomization
      (observe_helm_release_status K m.meta.name namespace s)
      (observe_kustomization_status K m.meta.name namespace s)
      (record {
        status = condition_false;
        reason = "TemplateInvalid";
        message = "no flux resource type defined";
      })

abbrev pub module_ref : Module → ModuleTemplate → ResourceReference
module_ref m mt = record { name = m.meta.name; namespace = target_namespace m mt }

-- The condition that mirrors what was observed.
abbrev pub observed_condition : Module → Observation → Condition
observed_condition m o = record {
  type = condition_type_ready;
  status = o.status;
  reason = o.reason;
  message = o.message;
  observed_generation = m.meta.generation;
  last_transition_time = none;
}

-- The status that `updateStatus` computes, from what it reads of the Flux object.
unfoldable pub new_status : (K : Kube) → Module → ModuleTemplate → K.State → ModuleStatus
unfolding observe_flux_resource_status sort_conditions target_namespace
new_status K m mt s =
    let helm = mt.body.spec.helm_release in
    let kust = mt.body.spec.kustomization in
    record {
      observed_generation = m.meta.generation;
      template_generation = mt.meta.generation;
      helm_release_ref =
          switch helm kust (some (module_ref m mt)) none m.body.status.helm_release_ref;
      kustomization_ref =
          switch helm kust none (some (module_ref m mt)) m.body.status.kustomization_ref;
      conditions = sort_conditions (
          K.set_status_condition m.body.status.conditions
            (observed_condition m (observe_flux_resource_status K m mt (target_namespace m mt) s)));
    }

abbrev pub with_status : Module → ModuleStatus → Module
with_status m status = record m { body = record m.body { status = status } }

abbrev pub reconciled_event : Module → Event
reconciled_event m = record {
  event_type = "Normal";
  reason = "Reconciled";
  action = "Reconcile";
  note = "Module resources reconciled for template %s";
  args = m.body.spec.template_ref ∷ [];
}

abbrev pub write_status : (K : Kube) → Recorder → Module → ModuleStatus → Exec (World K) (Unit {0})
write_status K recorder m status =
    if not (K.equal_module_status m.body.status status)
    then (do
      on_cluster K (K.patch_status modules m (with_status m status))
      eventf K recorder (reconciled_event m))
    else pure tt

unfoldable pub update_status :
    (K : Kube) → Recorder → Module → ModuleTemplate → Exec (World K) (Unit {0})
unfolding new_status
update_status K recorder m mt s = write_status K recorder m (new_status K m mt s.cluster) s

abbrev pub not_ready : Module → String → String → Condition
not_ready m reason message = record {
  type = condition_type_ready;
  status = condition_false;
  reason = reason;
  message = message;
  observed_generation = m.meta.generation;
  last_transition_time = none;
}

unfoldable pub set_ready_condition_false :
    (K : Kube) → Module → String → String → Exec (World K) (Unit {0})
set_ready_condition_false K m reason message =
    let status = record m.body.status {
      conditions = K.set_status_condition m.body.status.conditions (not_ready m reason message);
      observed_generation = m.meta.generation;
    } in
    log_error (on_cluster K (K.patch_status modules m (with_status m status)))
