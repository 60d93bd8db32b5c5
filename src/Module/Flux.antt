-- ===== src/Module/Flux.antt =====
-- internal/core/module/helmrelease.go and kustomization.go
pub mod Laws
use otterscale_operator.Common.{String, Option, none, some, []}
use otterscale_operator.Common.Dict.{Dict, copy}
use otterscale_operator.Common.Exec.{Error, template_invalid, Result, Exec, raise, filter_error}
use otterscale_operator.Api.Meta.{Document, null, ObjectMeta, ObjectKey, Object, StringMap, entries}
use otterscale_operator.Api.Module.{
  Module, ModuleTemplate, HelmReleaseSpec, HelmReleaseTemplateSpec, KustomizationTemplateSpec,
}
use otterscale_operator.Api.Owned.{
  HelmReleaseBody, KustomizationBody, helm_releases, kustomizations, named,
}
use otterscale_operator.Kube.{Kube, with_controller}
use otterscale_operator.Module.{labels_for_module, target_namespace}

abbrev pub flux_key : Module → String → ObjectKey
flux_key m namespace = record { namespace = namespace; name = m.meta.name }

-- `maps.Copy(hr.Labels, LabelsForModule(m.Name, mt.Name, version))`, and the same for `ks`.
abbrev pub relabelled : Module → ModuleTemplate → String → ObjectMeta → ObjectMeta
relabelled m mt version meta = record meta {
  labels = some (copy (entries meta.labels) (labels_for_module m.meta.name mt.meta.name version));
}

-- `if m.Spec.Values != nil { templateSpec.Values = m.Spec.Values }`
abbrev pub override_values : Option Document → HelmReleaseSpec → HelmReleaseSpec
override_values none spec = spec
override_values (some values) spec = record spec { values = some values }

-- The object that the mutate function makes, but for the owner.
abbrev pub desired_helm_release :
    Module
    → ModuleTemplate
    → String
    → HelmReleaseSpec
    → Object HelmReleaseBody
    → Object HelmReleaseBody
desired_helm_release m mt version spec hr = record {
  meta = relabelled m mt version hr.meta;
  body = record hr.body { spec = override_values m.body.spec.values spec };
}

abbrev pub desired_kustomization :
    Module
    → ModuleTemplate
    → String
    → Document
    → Object KustomizationBody
    → Object KustomizationBody
desired_kustomization m mt version spec ks = record {
  meta = relabelled m mt version ks.meta;
  body = record ks.body { spec = spec };
}

abbrev pub new_helm_release : ObjectKey → Object HelmReleaseBody
new_helm_release key =
    named key (record { spec = record { values = none; rest = null }; conditions = [] })

abbrev pub new_kustomization : ObjectKey → Object KustomizationBody
new_kustomization key = named key (record { spec = null; conditions = [] })

abbrev pub helm_release_from :
    (K : Kube)
    → Module
    → ModuleTemplate
    → String
    → Option HelmReleaseTemplateSpec
    → Exec K.State (Unit {0})
helm_release_from K m mt version none = raise (
    template_invalid mt.meta.name
      "helmRelease spec is nil but Module expects a HelmRelease template")
helm_release_from K m mt version (some template) =
    K.create_or_update helm_releases (new_helm_release (flux_key m (target_namespace m mt)))
      (λ hr. with_controller K m.meta (desired_helm_release m mt version template.spec hr))

unfoldable pub reconcile_helm_release :
    (K : Kube) → Module → ModuleTemplate → String → Exec K.State (Unit {0})
unfolding copy labels_for_module target_namespace with_controller
reconcile_helm_release K m mt version = helm_release_from K m mt version mt.body.spec.helm_release

unfoldable pub delete_helm_release : (K : Kube) → Module → String → Exec K.State (Unit {0})
delete_helm_release K m namespace =
    filter_error K.ignore_not_found (K.delete helm_releases (flux_key m namespace))

abbrev pub kustomization_from :
    (K : Kube)
    → Module
    → ModuleTemplate
    → String
    → Option KustomizationTemplateSpec
    → Exec K.State (Unit {0})
kustomization_from K m mt version none = raise (
    template_invalid mt.meta.name
      "kustomization spec is nil but Module expects a Kustomization template")
kustomization_from K m mt version (some template) =
    K.create_or_update kustomizations (new_kustomization (flux_key m (target_namespace m mt)))
      (λ ks. with_controller K m.meta (desired_kustomization m mt version template.spec ks))

unfoldable pub reconcile_kustomization :
    (K : Kube) → Module → ModuleTemplate → String → Exec K.State (Unit {0})
unfolding copy labels_for_module target_namespace with_controller
reconcile_kustomization K m mt version =
    kustomization_from K m mt version mt.body.spec.kustomization

unfoldable pub delete_kustomization : (K : Kube) → Module → String → Exec K.State (Unit {0})
delete_kustomization K m namespace =
    filter_error K.ignore_not_found (K.delete kustomizations (flux_key m namespace))
