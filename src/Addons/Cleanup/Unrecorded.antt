-- ===== src/Addons/Cleanup/Unrecorded.antt =====
-- The cleanup of a Module whose status refers to no Flux object.
use otterscale_operator.Common.{String, ◌≡◌, refl, Option, none, some, ◌==◌, inl, inr, Bool-cases}
use otterscale_operator.Common.Exec.{Exec}
use otterscale_operator.Api.Meta.{ResourceReference, ObjectKey}
use otterscale_operator.Api.Module.{Module}
use otterscale_operator.Api.Owned.{Kind, modules}
use otterscale_operator.Kube.{Kube, key_of, Differ}
use otterscale_operator.Kube.Laws.{ClientLaws}
use otterscale_operator.Kube.Sync.{Untouched, Untouched-then}
use otterscale_operator.Module.{module_finalizer}
use otterscale_operator.Module.Flux.{delete_helm_release, delete_kustomization}
use otterscale_operator.Addons.Cleanup.{
  resolve_cleanup_namespace, when_set, delete_flux_resources, without_finalizer, patch_module,
  reconcile_delete,
}
use otterscale_operator.Addons.Cleanup.Laws.{patch_module-Untouched}

module _ (K : Kube) (m : Module) (j : Kind) (other : ObjectKey) where
  unset-Untouched :
      (o : Option ResourceReference) (a : Exec K.State (Unit {0}))
      → o ≡ none
      → Untouched K j other (when_set o a)
  unset-Untouched none a e = λ s. refl
  unset-Untouched (some ref) a e = cc

  unrecorded-Untouched :
      (namespace : String)
      → m.body.status.helm_release_ref ≡ none
      → m.body.status.kustomization_ref ≡ none
      → Untouched K j other (delete_flux_resources K m namespace)
  unfolding delete_flux_resources
  unrecorded-Untouched namespace no_helm no_kust s = elim (Bool-cases (namespace == "")) [
    | inl empty ↦ rw empty refl
    | inr named_eq ↦ rw named_eq (
        Untouched-then K j other
          (when_set m.body.status.helm_release_ref (delete_helm_release K m namespace))
          (when_set m.body.status.kustomization_ref (delete_kustomization K m namespace))
          (unset-Untouched m.body.status.helm_release_ref (delete_helm_release K m namespace)
            no_helm)
          (unset-Untouched m.body.status.kustomization_ref (delete_kustomization K m namespace)
            no_kust)
          s)
  ]

  -- The cleanup of a Module whose status refers to no Flux object deletes nothing, whatever
  -- namespace the Module or its template names: no object but the Module changes.
  pub reconcile_delete-unrecorded :
      ClientLaws K
      → m.body.status.helm_release_ref ≡ none
      → m.body.status.kustomization_ref ≡ none
      → Differ modules (key_of m.meta) j other
      → (s : K.State) → K.lookup j other (reconcile_delete K m s).1 ≡ K.lookup j other s
  unfolding reconcile_delete
  reconcile_delete-unrecorded C no_helm no_kust d s =
      elim (Bool-cases (K.contains_finalizer m.meta.finalizers module_finalizer)) [
        | inl carries ↦ rw carries (
            Untouched-then K j other (delete_flux_resources K m (resolve_cleanup_namespace K m s))
              (patch_module K m (without_finalizer K m))
              (unrecorded-Untouched (resolve_cleanup_namespace K m s) no_helm no_kust)
              (patch_module-Untouched K C m j other d) s)
        | inr lacks ↦ rw lacks refl
      ]
