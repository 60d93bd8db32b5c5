-- ===== src/Module/Flux/Laws.antt =====
-- What a sync of the Flux object of a Module leaves in the cluster.
use otterscale_operator.Common.{String, ◌≡◌, refl, ap, Option, none, some}
use otterscale_operator.Common.Exec.{ok}
use otterscale_operator.Api.Module.{
  Module, ModuleTemplate, HelmReleaseSpec, HelmReleaseTemplateSpec, KustomizationTemplateSpec,
}
use otterscale_operator.Api.Owned.{helm_releases, kustomizations}
use otterscale_operator.Kube.{Kube, with_controller, IsGone}
use otterscale_operator.Kube.Laws.{ClientLaws, OwnershipLaws, ErrorLaws, current}
use otterscale_operator.Kube.Sync.{
  Holds, OnlyAt, create_or_update-Holds, delete-IsGone, ignore_not_found-OnlyMissing,
}
use otterscale_operator.Module.{target_namespace, override, labels_for_module}
use otterscale_operator.Module.Spec.{own_or, own_or_none, flux_place, flux_labels, release_spec}
use otterscale_operator.Labels.{standard}
use otterscale_operator.Common.Dict.{copy, insert}
use otterscale_operator.Api.Meta.{Document, entries}
use otterscale_operator.Module.Flux.{
  flux_key, override_values, desired_helm_release, desired_kustomization, new_helm_release,
  new_kustomization, helm_release_from, kustomization_from, reconcile_helm_release,
  delete_helm_release, reconcile_kustomization, delete_kustomization,
}

override-own_or : {A : Type 0} (own : Option A) (given : A) → override own given ≡ own_or own given
override-own_or none given = refl
override-own_or (some a) given = refl

override_values-own_or :
    (values : Option Document) (spec : HelmReleaseSpec)
    → override_values values spec
      ≡ record { values = own_or_none values spec.values; rest = spec.rest }
override_values-own_or none spec = refl
override_values-own_or (some v) spec = refl

override_values-release :
    (m : Module) (template : HelmReleaseTemplateSpec)
    → override_values m.body.spec.values template.spec ≡ release_spec m template
override_values-release m template = override_values-own_or m.body.spec.values template.spec

pub target_namespace-own_or :
    (m : Module) (mt : ModuleTemplate)
    → target_namespace m mt ≡ own_or m.body.spec.namespace mt.body.spec.namespace
unfolding target_namespace
target_namespace-own_or m mt = override-own_or m.body.spec.namespace mt.body.spec.namespace

pub flux_key-place :
    (m : Module) (mt : ModuleTemplate) → flux_key m (target_namespace m mt) ≡ flux_place m mt
flux_key-place m mt = ap (flux_key m) (target_namespace-own_or m mt)

module _ (K : Kube) (m : Module) (mt : ModuleTemplate) (version : String) where
  -- The HelmRelease is there, in the namespace of the Module or else of the template, with the
  -- spec of the template under the values of the Module, with the labels of the Module added to
  -- what it had, and the Module is its controller.
  abbrev pub HoldsHelmRelease : HelmReleaseTemplateSpec → K.State → K.State → Type 0
  HoldsHelmRelease template s t =
      let before = current K helm_releases (new_helm_release (flux_place m mt)) s in
      Holds K helm_releases (flux_place m mt) m.meta
        (some (copy (entries before.meta.labels) (flux_labels m mt version)))
        (record before.body { spec = release_spec m template }) t

  abbrev pub HoldsKustomization : KustomizationTemplateSpec → K.State → K.State → Type 0
  HoldsKustomization template s t =
      let before = current K kustomizations (new_kustomization (flux_place m mt)) s in
      Holds K kustomizations (flux_place m mt) m.meta
        (some (copy (entries before.meta.labels) (flux_labels m mt version)))
        (record before.body { spec = template.spec }) t

  module _ (C : ClientLaws K) where
    module _ (O : OwnershipLaws K) (s : K.State) {t : K.State} where
      pub reconcile_helm_release-Holds :
          (template : HelmReleaseTemplateSpec)
          → mt.body.spec.helm_release ≡ some template
          → reconcile_helm_release K m mt version s ≡ (ok tt, t)
          → HoldsHelmRelease template s t
      unfolding reconcile_helm_release labels_for_module standard insert
      reconcile_helm_release-Holds template has h =
          let key = flux_key m (target_namespace m mt) in
          rw (← flux_key-place m mt, ← override_values-release m template)
            (create_or_update-Holds K C O m.meta helm_releases (new_helm_release key)
              (λ hr. with_controller K m.meta (desired_helm_release m mt version template.spec hr))
              (desired_helm_release m mt version template.spec) s (λ x sent e. e) (rw has at h))

      pub reconcile_kustomization-Holds :
          (template : KustomizationTemplateSpec)
          → mt.body.spec.kustomization ≡ some template
          → reconcile_kustomization K m mt version s ≡ (ok tt, t)
          → HoldsKustomization template s t
      unfolding reconcile_kustomization labels_for_module standard insert
      reconcile_kustomization-Holds template has h =
          let key = flux_key m (target_namespace m mt) in
          rw (← flux_key-place m mt) (
            create_or_update-Holds K C O m.meta kustomizations (new_kustomization key)
              (λ ks. with_controller K m.meta (desired_kustomization m mt version template.spec ks))
              (desired_kustomization m mt version template.spec) s (λ x sent e. e) (rw has at h))

    helm_release_from-OnlyAt :
        (o : Option HelmReleaseTemplateSpec)
        → OnlyAt K helm_releases
            (flux_key m (target_namespace m mt))
            (helm_release_from K m mt version o)
    helm_release_from-OnlyAt none = λ s j other d. refl
    helm_release_from-OnlyAt (some template) = λ s j other.
        C.lookup-create_or_update_ne helm_releases
          (new_helm_release (flux_key m (target_namespace m mt)))
          (λ hr. with_controller K m.meta (desired_helm_release m mt version template.spec hr)) s j
          other

    pub reconcile_helm_release-OnlyAt :
        OnlyAt K helm_releases
          (flux_key m (target_namespace m mt))
          (reconcile_helm_release K m mt version)
    unfolding reconcile_helm_release
    reconcile_helm_release-OnlyAt = helm_release_from-OnlyAt mt.body.spec.helm_release

    kustomization_from-OnlyAt :
        (o : Option KustomizationTemplateSpec)
        → OnlyAt K kustomizations
            (flux_key m (target_namespace m mt))
            (kustomization_from K m mt version o)
    kustomization_from-OnlyAt none = λ s j other d. refl
    kustomization_from-OnlyAt (some template) = λ s j other.
        C.lookup-create_or_update_ne kustomizations
          (new_kustomization (flux_key m (target_namespace m mt)))
          (λ ks. with_controller K m.meta (desired_kustomization m mt version template.spec ks)) s j
          other

    pub reconcile_kustomization-OnlyAt :
        OnlyAt K kustomizations
          (flux_key m (target_namespace m mt))
          (reconcile_kustomization K m mt version)
    unfolding reconcile_kustomization
    reconcile_kustomization-OnlyAt = kustomization_from-OnlyAt mt.body.spec.kustomization

module _ (K : Kube) (C : ClientLaws K) (m : Module) (namespace : String) where
  pub delete_helm_release-IsGone :
      ErrorLaws K
      → (s : K.State) {t : K.State} → delete_helm_release K m namespace s ≡ (ok tt, t)
      → IsGone (K.lookup helm_releases (flux_key m namespace) t)
  unfolding delete_helm_release
  delete_helm_release-IsGone E s h =
      delete-IsGone K C K.ignore_not_found (ignore_not_found-OnlyMissing K C E) helm_releases
        (flux_key m namespace) s h

  pub delete_kustomization-IsGone :
      ErrorLaws K
      → (s : K.State) {t : K.State} → delete_kustomization K m namespace s ≡ (ok tt, t)
      → IsGone (K.lookup kustomizations (flux_key m namespace) t)
  unfolding delete_kustomization
  delete_kustomization-IsGone E s h =
      delete-IsGone K C K.ignore_not_found (ignore_not_found-OnlyMissing K C E) kustomizations
        (flux_key m namespace) s h

  pub delete_helm_release-OnlyAt :
      OnlyAt K helm_releases (flux_key m namespace) (delete_helm_release K m namespace)
  unfolding delete_helm_release
  delete_helm_release-OnlyAt s j other =
      C.lookup-delete_ne helm_releases (flux_key m namespace) s j other

  pub delete_kustomization-OnlyAt :
      OnlyAt K kustomizations (flux_key m namespace) (delete_kustomization K m namespace)
  unfolding delete_kustomization
  delete_kustomization-OnlyAt s j other =
      C.lookup-delete_ne kustomizations (flux_key m namespace) s j other
