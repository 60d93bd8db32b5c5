-- ===== src/Addons.antt =====
-- internal/controller/addons/module_controller.go: the template of a Module and what a sync does
-- with it. The other parts of the controller are the modules below.
pub mod Cleanup
pub mod Status
pub mod Reconcile
pub mod Watches
pub mod Laws
pub mod Frame
pub mod Leftovers
use otterscale_operator.Common.{String, Option, none, some, if◌then◌else◌}
use otterscale_operator.Common.Exec.{
  Error, template_not_found, template_invalid, Result, ok, err, Exec, raise,
}
use otterscale_operator.Api.Module.{Module, ModuleTemplate, ModuleTemplateSpec}
use otterscale_operator.Api.Owned.{module_templates}
use otterscale_operator.Kube.{Kube}
use otterscale_operator.Module.Flux.{reconcile_helm_release, reconcile_kustomization}

abbrev pub template_error : (K : Kube) → String → Error → Error
template_error K name e = if K.is_not_found e then template_not_found name else e

abbrev pub map_error : {A : Type 0} → (Error → Error) → Result A → Result A
map_error f (ok a) = ok a
map_error f (err e) = err (f e)

unfoldable pub fetch_module_template : (K : Kube) → String → K.State → Result ModuleTemplate
fetch_module_template K name s =
    map_error (template_error K name)
      (K.get module_templates (record { namespace = ""; name = name }) s)

-- `switch { case HelmRelease != nil: … case Kustomization != nil: … default: … }`
abbrev pub switch {ℓ} : {A B : Type 0} {C : Type ℓ} → Option A → Option B → C → C → C → C
switch (some _) k helm kust neither = helm
switch none (some _) helm kust neither = kust
switch none none helm kust neither = neither

unfoldable pub reconcile_resources :
    (K : Kube) → Module → ModuleTemplate → String → Exec K.State (Unit {0})
unfolding reconcile_helm_release reconcile_kustomization
reconcile_resources K m mt version =
    switch mt.body.spec.helm_release mt.body.spec.kustomization
      (reconcile_helm_release K m mt version) (reconcile_kustomization K m mt version)
      (raise (template_invalid mt.meta.name "neither helmRelease nor kustomization is defined"))
