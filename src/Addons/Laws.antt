-- ===== src/Addons/Laws.antt =====
-- What a sync of a Module with its template does.
use otterscale_operator.Common.{String, ◌≡◌, ◌≢◌, refl, Option, none, some}
use otterscale_operator.Common.Exec.{ok, template_invalid, raise, Exec}
use otterscale_operator.Api.Meta.{ObjectKey}
use otterscale_operator.Api.Module.{
  Module, ModuleTemplate, HelmReleaseTemplateSpec, KustomizationTemplateSpec,
}
use otterscale_operator.Api.Owned.{Kind, modules, helm_releases, kustomizations}
use otterscale_operator.Kube.{Kube, Differ}
use otterscale_operator.Kube.Laws.{ClientLaws, OwnershipLaws}
use otterscale_operator.Kube.Sync.{Untouched, Holds-of_eq}
use otterscale_operator.Module.{target_namespace}
use otterscale_operator.Module.Flux.{flux_key, reconcile_helm_release, reconcile_kustomization}
use otterscale_operator.Module.Spec.{flux_place}
use otterscale_operator.Module.Flux.Laws.{
  flux_key-place, HoldsHelmRelease, HoldsKustomization, reconcile_helm_release-Holds,
  reconcile_kustomization-Holds, reconcile_helm_release-OnlyAt, reconcile_kustomization-OnlyAt,
}
use otterscale_operator.Addons.{switch, reconcile_resources}

-- The Flux object of a Module is there as before, of whichever of the two kinds.
abbrev pub SameFlux : (K : Kube) → Module → ModuleTemplate → K.State → K.State → Type 0
SameFlux K m mt t u =
    let key = flux_key m (target_namespace m mt) in
    (K.lookup helm_releases key u ≡ K.lookup helm_releases key t)
    × (K.lookup kustomizations key u ≡ K.lookup kustomizations key t)

module _ (K : Kube) (m : Module) (mt : ModuleTemplate) (version : String) where
  -- The one Flux object that the template asks for: of the two kinds, the HelmRelease comes first.
  abbrev pub FluxHolds :
      Option HelmReleaseTemplateSpec → Option KustomizationTemplateSpec → K.State → K.State → Type 0
  FluxHolds (some template) k s t = HoldsHelmRelease K m mt version template s t
  FluxHolds none (some template) s t = HoldsKustomization K m mt version template s t
  FluxHolds none none s t = ⊥

  -- The cluster holds what the template and the Module ask for. `s` is the state before.
  abbrev pub Synced : K.State → K.State → Type 0
  Synced s t = FluxHolds mt.body.spec.helm_release mt.body.spec.kustomization s t

  FluxHolds-of_flux :
      (h : Option HelmReleaseTemplateSpec) (k : Option KustomizationTemplateSpec) (s : K.State)
      {t u : K.State}
      → SameFlux K m mt t u
      → FluxHolds h k s t
      → FluxHolds h k s u
  FluxHolds-of_flux (some template) k s (helm, _) d =
      Holds-of_eq K helm_releases (flux_place m mt) (rw (flux_key-place m mt) at helm) d
  FluxHolds-of_flux none (some template) s (_, kust) d =
      Holds-of_eq K kustomizations (flux_place m mt) (rw (flux_key-place m mt) at kust) d
  FluxHolds-of_flux none none s same d = absurd d

  -- What a sync leaves stays while the Flux object does.
  pub Synced-of_flux : (s : K.State) {t u : K.State} → SameFlux K m mt t u → Synced s t → Synced s u
  Synced-of_flux = FluxHolds-of_flux mt.body.spec.helm_release mt.body.spec.kustomization

  -- What a sync leaves stays while no object but Modules changes.
  pub Synced-of_same :
      (s : K.State) {t u : K.State}
      → ((j : Kind) (other : ObjectKey) → modules ≢ j → K.lookup j other u ≡ K.lookup j other t)
      → Synced s t
      → Synced s u
  Synced-of_same s same =
      let key = flux_key m (target_namespace m mt) in
      Synced-of_flux s (same helm_releases key (λ e. cc), same kustomizations key (λ e. cc))

  abbrev pub dispatch :
      Option HelmReleaseTemplateSpec → Option KustomizationTemplateSpec → Exec K.State (Unit {0})
  dispatch h k =
      switch h k (reconcile_helm_release K m mt version) (reconcile_kustomization K m mt version)
        (raise (template_invalid mt.meta.name "neither helmRelease nor kustomization is defined"))

  module _ (C : ClientLaws K) where
    sync-FluxHolds :
        (O : OwnershipLaws K) (s : K.State) {t : K.State} (h : Option HelmReleaseTemplateSpec)
        (k : Option KustomizationTemplateSpec)
        → mt.body.spec.helm_release ≡ h
        → mt.body.spec.kustomization ≡ k
        → dispatch h k s ≡ (ok tt, t)
        → FluxHolds h k s t
    sync-FluxHolds O s (some template) k has _ e =
        reconcile_helm_release-Holds K m mt version C O s template has e
    sync-FluxHolds O s none (some template) no_helm has e =
        reconcile_kustomization-Holds K m mt version C O s template has e
    sync-FluxHolds O s none none no_helm no_kust e = cc

    -- After a sync that succeeds, the cluster holds the one Flux object that the template asks for,
    -- with its spec, the values of the Module, the labels and the owner; a template that asks for
    -- neither is not synced with success.
    pub reconcile_resources-FluxHolds :
        OwnershipLaws K
        → (s : K.State) {t : K.State} → reconcile_resources K m mt version s ≡ (ok tt, t)
        → Synced s t
    unfolding reconcile_resources
    reconcile_resources-FluxHolds O s e =
        sync-FluxHolds O s mt.body.spec.helm_release mt.body.spec.kustomization refl refl e

    sync-Untouched :
        (j : Kind) (other : ObjectKey) (h : Option HelmReleaseTemplateSpec)
        (k : Option KustomizationTemplateSpec)
        → Differ helm_releases (flux_key m (target_namespace m mt)) j other
        → Differ kustomizations (flux_key m (target_namespace m mt)) j other
        → Untouched K j other (dispatch h k)
    sync-Untouched j other (some template) k dh dk =
        λ s. reconcile_helm_release-OnlyAt K m mt version C s j other dh
    sync-Untouched j other none (some template) dh dk =
        λ s. reconcile_kustomization-OnlyAt K m mt version C s j other dk
    sync-Untouched j other none none dh dk = λ s. refl

    -- Whether it succeeds or fails, a sync of a Module changes no object but the HelmRelease and the
    -- Kustomization with the name of the Module in the target namespace.
    pub reconcile_resources-OnlyFlux :
        (j : Kind) (other : ObjectKey)
        → Differ helm_releases (flux_key m (target_namespace m mt)) j other
        → Differ kustomizations (flux_key m (target_namespace m mt)) j other
        → Untouched K j other (reconcile_resources K m mt version)
    unfolding reconcile_resources
    reconcile_resources-OnlyFlux j other =
        sync-Untouched j other mt.body.spec.helm_release mt.body.spec.kustomization
