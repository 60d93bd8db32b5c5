-- ===== src/Addons/Cleanup.antt =====
-- `reconcileDelete` and `resolveCleanupNamespace` of internal/controller/addons/module_controller.go
pub mod Laws
pub mod Unrecorded
pub mod Progress
use otterscale_operator.Common.{String, Bool, not, Option, none, some, ◌==◌, if◌then◌else◌}
use otterscale_operator.Common.Exec.{Result, ok, err, Exec, ◌>>=◌, ◌>>◌, pure}
use otterscale_operator.Api.Meta.{ResourceReference}
use otterscale_operator.Api.Module.{Module, ModuleTemplate}
use otterscale_operator.Api.Owned.{modules}
use otterscale_operator.Kube.{Kube}
use otterscale_operator.Module.{module_finalizer}
use otterscale_operator.Module.Flux.{delete_helm_release, delete_kustomization}
use otterscale_operator.Addons.{fetch_module_template}

-- `ref != nil && ref.Namespace != ""` gives the namespace; otherwise the search goes on.
abbrev pub ref_namespace_or : Option ResourceReference → String → String
ref_namespace_or none rest = rest
ref_namespace_or (some ref) rest = if not (ref.namespace == "") then ref.namespace else rest

abbrev pub template_namespace : Result ModuleTemplate → String
template_namespace (err _) = ""
template_namespace (ok mt) = mt.body.spec.namespace

abbrev pub spec_namespace_or : Option String → String → String
spec_namespace_or none rest = rest
spec_namespace_or (some namespace) rest = namespace

unfoldable pub resolve_cleanup_namespace : (K : Kube) → Module → K.State → String
unfolding fetch_module_template
resolve_cleanup_namespace K m s = ref_namespace_or m.body.status.helm_release_ref (
    ref_namespace_or m.body.status.kustomization_ref (
      spec_namespace_or m.body.spec.namespace
        (template_namespace (fetch_module_template K m.body.spec.template_ref s))))

-- `if ref != nil { … }`
abbrev pub when_set :
    {S : Type 0} → Option ResourceReference → Exec S (Unit {0}) → Exec S (Unit {0})
when_set none m = pure tt
when_set (some _) m = m

-- Deletes by the type of what was created, as the status says.
unfoldable pub delete_flux_resources : (K : Kube) → Module → String → Exec K.State (Unit {0})
unfolding delete_helm_release delete_kustomization
delete_flux_resources K m namespace =
    if not (namespace == "")
    then (do
      when_set m.body.status.helm_release_ref (delete_helm_release K m namespace)
      when_set m.body.status.kustomization_ref (delete_kustomization K m namespace))
    else pure tt

abbrev pub without_finalizer : Kube → Module → Module
without_finalizer K m = record m {
  meta = record m.meta { finalizers = K.remove_finalizer m.meta.finalizers module_finalizer };
}

-- `r.Patch(ctx, m, patch)`, of which only the error is used.
abbrev pub patch_module : (K : Kube) → Module → Module → Exec K.State (Unit {0})
patch_module K base m = do _ ← K.patch modules base m; pure tt

unfoldable pub reconcile_delete : (K : Kube) → Module → Exec K.State (Unit {0})
unfolding resolve_cleanup_namespace delete_flux_resources
reconcile_delete K m =
    if K.contains_finalizer m.meta.finalizers module_finalizer
    then (λ s.
        (delete_flux_resources K m (resolve_cleanup_namespace K m s)
            >> patch_module K m (without_finalizer K m))
          s)
    else pure tt
