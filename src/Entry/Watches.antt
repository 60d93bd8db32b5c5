-- ===== src/Entry/Watches.antt =====
-- Which changes the controllers see: what each of them writes is among what it watches.
use mathlib.Core.List.{Memᴰ}
use otterscale_operator.Common.{
  String, ◌≡◌, ◌≢◌, refl, ap, sym, subst, ◌∙◌, Option, none, some, Bool, true, false, List, [], ◌∷◌,
  ◌++◌, ◌⊎◌, inl, inr, ◌↔◌,
}
use otterscale_operator.Common.Exec.{ok}
use otterscale_operator.Api.Meta.{ObjectKey, ObjectMeta, entries}
use otterscale_operator.Api.Workspace.{Workspace}
use otterscale_operator.Api.Module.{
  Module, ModuleTemplate, HelmReleaseTemplateSpec, KustomizationTemplateSpec,
}
use otterscale_operator.Api.Owned.{Kind, IsIstio, helm_releases, kustomizations, Resource}
use otterscale_operator.Kube.{Kube}
use otterscale_operator.Kube.Laws.{ClientLaws, OwnershipLaws, current}
use otterscale_operator.Common.Dict.{Dict, copy, insert}
use otterscale_operator.Tenant.Detector.{IstioDetector}
use otterscale_operator.Tenant.Managed.{Managed}
use otterscale_operator.Labels.{standard}
use otterscale_operator.Module.{labels_for_module}
use otterscale_operator.Module.Spec.{flux_place}
use otterscale_operator.Module.Flux.{new_helm_release, new_kustomization}
use otterscale_operator.Addons.{reconcile_resources}
use otterscale_operator.Addons.Laws.{FluxHolds, reconcile_resources-FluxHolds}
use otterscale_operator.Addons.Watches.{cluster_key, map_flux_resource_to_module}
use otterscale_operator.Addons.Watches.Laws.{map_flux_resource_to_module-labelled}
use otterscale_operator.Entry.Controllers.{
  Controller, WorkspaceReconciler, ModuleReconciler, Watch, Watched, Mapping, enqueue_requests,
  setup_workspace_controller, setup_module_controller, static_watches, istio_watches,
}

mem_front : (x : Watch) (xs ys : List Watch) → Memᴰ x xs → Memᴰ x (xs ++ ys)
mem_front x [] ys m = elim m [ ]
mem_front x (y ∷ xs) ys (Memᴰ.head e) = Memᴰ.head e
mem_front x (y ∷ xs) ys (Memᴰ.tail m) = Memᴰ.tail (mem_front x xs ys m)

mem_after : (x : Watch) (xs ys : List Watch) → Memᴰ x ys → Memᴰ x (xs ++ ys)
mem_after x [] ys m = m
mem_after x (y ∷ xs) ys m = Memᴰ.tail (mem_after x xs ys m)

abbrev pub NoneOf : Watch → List Watch → Type 0
NoneOf x [] = Unit {0}
NoneOf x (y ∷ xs) = (x ≢ y) × NoneOf x xs

pub mem_rest : (x : Watch) (xs ys : List Watch) → NoneOf x xs → Memᴰ x (xs ++ ys) → Memᴰ x ys
mem_rest x [] ys none_of m = m
mem_rest x (y ∷ xs) ys none_of (Memᴰ.head e) = absurd (none_of.0 e)
mem_rest x (y ∷ xs) ys none_of (Memᴰ.tail m) = mem_rest x xs ys none_of.1 m

enabled_of_watch : (x : Watch) (b : Bool) → Memᴰ x (istio_watches b) → b ≡ true
enabled_of_watch x true m = refl
enabled_of_watch x false m = elim m [ ]

module _ (r : WorkspaceReconciler) (detector : IstioDetector) where
  static-owns :
      {j : Kind}
      → (IsIstio j → ⊥)
      → Memᴰ (Watch.owns j) static_watches
      → Memᴰ (Watch.owns j) (setup_workspace_controller r detector).watch_list
        ↔ (IsIstio j → detector.enabled ≡ true)
  unfolding setup_workspace_controller
  static-owns {j} other m = (
    λ _ istio. absurd (other istio),
    λ _. mem_front (Watch.owns j) static_watches (istio_watches detector.enabled) m,
  )

  IsIstio-owns :
      {j : Kind}
      → IsIstio j
      → NoneOf (Watch.owns j) static_watches
      → Memᴰ (Watch.owns j) (istio_watches true)
      → Memᴰ (Watch.owns j) (setup_workspace_controller r detector).watch_list
        ↔ (IsIstio j → detector.enabled ≡ true)
  unfolding setup_workspace_controller
  IsIstio-owns {j} istio none_of m = (
    λ seen _.
        enabled_of_watch (Watch.owns j) detector.enabled
          (mem_rest (Watch.owns j) static_watches (istio_watches detector.enabled) none_of seen),
    λ enabled.
        mem_after (Watch.owns j) static_watches (istio_watches detector.enabled)
          (subst (λ b. Memᴰ (Watch.owns j) (istio_watches b)) (sym (enabled istio)) m),
  )

  -- The controller of Workspaces watches, as an owned object, each object that it manages, but for
  -- those of the two Istio kinds: these it watches exactly when its detector found Istio at the
  -- start, whatever the detector finds later.
  pub Managed-owns :
      (v : Workspace) {j : Kind} {other : ObjectKey}
      → Managed v j other
      → Memᴰ (Watch.owns j) (setup_workspace_controller r detector).watch_list
        ↔ (IsIstio j → detector.enabled ≡ true)
  Managed-owns v Managed.namespace = static-owns (λ i. i) (Memᴰ.tail (Memᴰ.head refl))
  Managed-owns v (Managed.binding role) =
      static-owns (λ i. i) (Memᴰ.tail (Memᴰ.tail (Memᴰ.tail (Memᴰ.tail (Memᴰ.head refl)))))
  Managed-owns v Managed.quota = static-owns (λ i. i) (Memᴰ.tail (Memᴰ.tail (Memᴰ.head refl)))
  Managed-owns v Managed.limits =
      static-owns (λ i. i) (Memᴰ.tail (Memᴰ.tail (Memᴰ.tail (Memᴰ.head refl))))
  Managed-owns v Managed.policy =
      static-owns (λ i. i)
        (Memᴰ.tail (Memᴰ.tail (Memᴰ.tail (Memᴰ.tail (Memᴰ.tail (Memᴰ.head refl))))))
  Managed-owns v Managed.peer =
      IsIstio-owns tt
        (λ e. cc, (λ e. cc, (λ e. cc, (λ e. cc, (λ e. cc, (λ e. cc, (λ e. cc, tt)))))))
        (Memᴰ.head refl)
  Managed-owns v Managed.authorization =
      IsIstio-owns tt
        (λ e. cc, (λ e. cc, (λ e. cc, (λ e. cc, (λ e. cc, (λ e. cc, (λ e. cc, tt)))))))
        (Memᴰ.tail (Memᴰ.head refl))

module _ (K : Kube) (m : Module) (mt : ModuleTemplate) (version : String) where
  -- An object of the kind is watched, and is led back to the Module alone.
  abbrev pub IsSeen : (j : Kind) → Controller → K.State → Type 0
  IsSeen j c t =
      (o : Resource j) × (K.lookup j (flux_place m mt) t ≡ some o)
      × Memᴰ (Watch.watches (Watched.objects j) Mapping.flux_to_module []) c.watch_list
      × (enqueue_requests K Mapping.flux_to_module o.meta t ≡ cluster_key m.meta.name ∷ [])

  enqueue_requests_of_labels :
      (before : Dict String) (o : ObjectMeta) (t : K.State)
      → o.labels ≡ some (copy before (labels_for_module m.meta.name mt.meta.name version))
      → enqueue_requests K Mapping.flux_to_module o t ≡ cluster_key m.meta.name ∷ []
  unfolding enqueue_requests
  enqueue_requests_of_labels before o t e =
      ap map_flux_resource_to_module e
      ∙ map_flux_resource_to_module-labelled before m.meta.name mt.meta.name version

  FluxHolds-IsSeen :
      (h : Option HelmReleaseTemplateSpec) (k : Option KustomizationTemplateSpec)
      (r : ModuleReconciler) (s : K.State) {t : K.State}
      → FluxHolds K m mt version h k s t
      → IsSeen helm_releases (setup_module_controller r) t
        ⊎ IsSeen kustomizations (setup_module_controller r) t
  unfolding setup_module_controller labels_for_module standard insert
  FluxHolds-IsSeen (some template) k r s {t} d = inl (
    d.stored,
    d.found,
    Memᴰ.tail (Memᴰ.tail (Memᴰ.head refl)),
    enqueue_requests_of_labels
        (entries (current K helm_releases (new_helm_release (flux_place m mt)) s).meta.labels)
        d.stored.meta t (d.labels_eq.elsewhere (λ e. cc)),
  )
  FluxHolds-IsSeen none (some template) r s {t} d = inr (
    d.stored,
    d.found,
    Memᴰ.tail (Memᴰ.tail (Memᴰ.tail (Memᴰ.head refl))),
    enqueue_requests_of_labels
        (entries (current K kustomizations (new_kustomization (flux_place m mt)) s).meta.labels)
        d.stored.meta t (d.labels_eq.elsewhere (λ e. cc)),
  )
  FluxHolds-IsSeen none none r s {t} d = absurd d

  -- After a sync of a Module that succeeds, the Flux object in the target namespace is of a kind
  -- that the controller of Modules watches, and a change of that object leads to a request for the
  -- Module and for no other.
  pub reconcile_resources-IsSeen :
      ClientLaws K
      → OwnershipLaws K
      → (r : ModuleReconciler) (s : K.State) {t : K.State}
      → reconcile_resources K m mt version s ≡ (ok tt, t)
      → IsSeen helm_releases (setup_module_controller r) t
        ⊎ IsSeen kustomizations (setup_module_controller r) t
  reconcile_resources-IsSeen C O r s h =
      FluxHolds-IsSeen mt.body.spec.helm_release mt.body.spec.kustomization r s
        (reconcile_resources-FluxHolds K m mt version C O s h)
