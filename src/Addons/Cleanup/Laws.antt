-- ===== src/Addons/Cleanup/Laws.antt =====
-- What is gone when a Module is let go.
use otterscale_operator.Common.{
  String, ◌≡◌, refl, Option, none, some, true, ◌==◌, inl, inr, Bool-cases,
}
use otterscale_operator.Common.Exec.{Result, Error, ok, err, bind-err, pure, continue}
use otterscale_operator.Api.Meta.{ResourceReference, ObjectKey}
use otterscale_operator.Api.Module.{Module}
use otterscale_operator.Api.Owned.{Kind, modules, helm_releases, kustomizations}
use otterscale_operator.Kube.{Kube, key_of, IsGone, Differ}
use otterscale_operator.Kube.Laws.{ClientLaws}
use otterscale_operator.Kube.Sync.{Untouched, Untouched-then, Untouched-eq}
use otterscale_operator.Module.{module_finalizer}
use otterscale_operator.Module.Flux.{flux_key, delete_helm_release, delete_kustomization}
use otterscale_operator.Module.Flux.Laws.{delete_helm_release-OnlyAt, delete_kustomization-OnlyAt}
use otterscale_operator.Addons.Cleanup.{
  resolve_cleanup_namespace, when_set, delete_flux_resources, without_finalizer, patch_module,
  reconcile_delete,
}

-- If a reference is set, the object is gone.
abbrev pub GoneIf : Option ResourceReference → (K : Kube) → Kind → ObjectKey → K.State → Type 0
GoneIf none K k key t = Unit {0}
GoneIf (some ref) K k key t = IsGone (K.lookup k key t)

module _ (K : Kube) (C : ClientLaws K) (m : Module) where
  module _ (namespace : String) where
    helm-Untouched :
        (o : Option ResourceReference) (j : Kind) (other : ObjectKey)
        → Differ helm_releases (flux_key m namespace) j other
        → Untouched K j other (when_set o (delete_helm_release K m namespace))
    helm-Untouched none j other d = λ s. refl
    helm-Untouched (some ref) j other d =
        λ s. delete_helm_release-OnlyAt K C m namespace s j other d

    kust-Untouched :
        (o : Option ResourceReference) (j : Kind) (other : ObjectKey)
        → Differ kustomizations (flux_key m namespace) j other
        → Untouched K j other (when_set o (delete_kustomization K m namespace))
    kust-Untouched none j other d = λ s. refl
    kust-Untouched (some ref) j other d =
        λ s. delete_kustomization-OnlyAt K C m namespace s j other d

    pub delete_flux_resources-Untouched :
        (j : Kind) (other : ObjectKey)
        → Differ helm_releases (flux_key m namespace) j other
        → Differ kustomizations (flux_key m namespace) j other
        → Untouched K j other (delete_flux_resources K m namespace)
    unfolding delete_flux_resources
    delete_flux_resources-Untouched j other dh dk s = elim (Bool-cases (namespace == "")) [
      | inl empty ↦ rw empty refl
      | inr named_eq ↦ rw named_eq (
          Untouched-then K j other
            (when_set m.body.status.helm_release_ref (delete_helm_release K m namespace))
            (when_set m.body.status.kustomization_ref (delete_kustomization K m namespace))
            (helm-Untouched m.body.status.helm_release_ref j other dh)
            (kust-Untouched m.body.status.kustomization_ref j other dk) s)
    ]

  same_state : (p : Result Module × K.State) → (continue {B = Unit {0}} p (λ _. pure tt)).1 ≡ p.1
  same_state (ok a, s) = refl
  same_state (err e, s) = refl

  pub patch_module-Untouched :
      (j : Kind) (other : ObjectKey)
      → Differ modules (key_of m.meta) j other
      → Untouched K j other (patch_module K m (without_finalizer K m))
  patch_module-Untouched j other d s =
      rw (same_state (K.patch modules m (without_finalizer K m) s))
        (C.lookup-patch_ne modules m (without_finalizer K m) s j other d)

  -- When a Flux object cannot be deleted, the cleanup returns that error, and the stored Module,
  -- with its finalizer, stays as it is.
  pub reconcile_delete-blocked :
      (s : K.State) {e : Error} {t : K.State}
      → K.contains_finalizer m.meta.finalizers module_finalizer ≡ true
      → delete_flux_resources K m (resolve_cleanup_namespace K m s) s ≡ (err e, t)
      → (reconcile_delete K m s ≡ (err e, t))
        × (K.lookup modules (key_of m.meta) t ≡ K.lookup modules (key_of m.meta) s)
  unfolding reconcile_delete
  reconcile_delete-blocked s carries fails =
      let ns = resolve_cleanup_namespace K m s in
      (
        rw carries (
            bind-err (delete_flux_resources K m ns) (λ _. patch_module K m (without_finalizer K m))
              s fails),
        Untouched-eq K modules (key_of m.meta) (delete_flux_resources K m ns)
            (delete_flux_resources-Untouched ns modules (key_of m.meta) (inl (λ e. cc))
              (inl (λ e. cc)))
            fails,
      )
