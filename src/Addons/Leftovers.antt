-- ===== src/Addons/Leftovers.antt =====
-- The Flux objects that a Module made before its namespace or its template changed.
use otterscale_operator.Common.{
  ◌∙◌, not, String, ◌≡◌, ◌≢◌, refl, Option, none, some, Bool, true, false, inl, inr, Bool-cases,
  ◌==◌, sym, subst, if◌then◌else◌,
}
use otterscale_operator.Common.Exec.{Exec, ok, pure, ◌>>◌}
use otterscale_operator.Api.Meta.{ObjectKey, ResourceReference}
use otterscale_operator.Api.Module.{
  Module, ModuleTemplate, HelmReleaseTemplateSpec, KustomizationTemplateSpec,
}
use otterscale_operator.Api.Owned.{Kind, modules, helm_releases, kustomizations}
use otterscale_operator.Kube.{Kube, Differ}
use otterscale_operator.Kube.Laws.{ClientLaws}
use otterscale_operator.Kube.Sync.{Untouched, Untouched-then}
use otterscale_operator.Controller.{Recorder}
use otterscale_operator.Controller.Frame.{Unmoved}
use otterscale_operator.Module.{target_namespace, module_finalizer}
use otterscale_operator.Module.Flux.{flux_key, delete_helm_release, delete_kustomization}
use otterscale_operator.Module.Flux.Laws.{
  reconcile_helm_release-OnlyAt, reconcile_kustomization-OnlyAt, delete_helm_release-OnlyAt,
  delete_kustomization-OnlyAt,
}
use otterscale_operator.Addons.{switch, reconcile_resources}
use otterscale_operator.Addons.Laws.{dispatch}
use otterscale_operator.Addons.Cleanup.{
  resolve_cleanup_namespace, when_set, delete_flux_resources, without_finalizer, patch_module,
  reconcile_delete,
}
use otterscale_operator.Addons.Status.{new_status, with_status, module_ref}
use otterscale_operator.Module.Flux.Laws.{target_namespace-own_or}
use otterscale_operator.Addons.Status.Laws.{resolve_cleanup_namespace-new_status}
use otterscale_operator.Addons.Reconcile.{sync}
use otterscale_operator.Addons.Frame.{sync-Unmoved}
use otterscale_operator.Addons.Cleanup.Laws.{patch_module-Untouched}

unless-Untouched :
    (K : Kube) (j : Kind) (other : ObjectKey) (b : Bool) (n : Exec K.State (Unit {0}))
    → Untouched K j other n
    → Untouched K j other (if not b then n else pure tt)
unless-Untouched K j other true n un = λ s. refl
unless-Untouched K j other false n un = un

module _ (K : Kube) (C : ClientLaws K) (j : Kind) (other : ObjectKey) (m : Module)
    (mt : ModuleTemplate) where
  -- The object is not the one that the template asks for now.
  abbrev pub IsLeft : Option HelmReleaseTemplateSpec → Option KustomizationTemplateSpec → Type 0
  IsLeft (some _) k = Differ helm_releases (flux_key m (target_namespace m mt)) j other
  IsLeft none (some _) = Differ kustomizations (flux_key m (target_namespace m mt)) j other
  IsLeft none none = ⊥

  IsValid_of_left :
      (h : Option HelmReleaseTemplateSpec) (k : Option KustomizationTemplateSpec)
      → IsLeft h k
      → switch h k (Unit {0}) (Unit {0}) ⊥
  IsValid_of_left (some _) k d = tt
  IsValid_of_left none (some _) d = tt
  IsValid_of_left none none d = d

  dispatch-left :
      (version : String) (h : Option HelmReleaseTemplateSpec) (k : Option KustomizationTemplateSpec)
      → IsLeft h k
      → Untouched K j other (dispatch K m mt version h k)
  dispatch-left version (some _) k d s = reconcile_helm_release-OnlyAt K m mt version C s j other d
  dispatch-left version none (some _) d s =
      reconcile_kustomization-OnlyAt K m mt version C s j other d
  dispatch-left version none none d s = absurd d

  reconcile_resources-left :
      (version : String)
      → IsLeft mt.body.spec.helm_release mt.body.spec.kustomization
      → Untouched K j other (reconcile_resources K m mt version)
  unfolding reconcile_resources
  reconcile_resources-left version =
      dispatch-left version mt.body.spec.helm_release mt.body.spec.kustomization

  -- The deletions that follow from the references of the last status.
  deletions : Option ResourceReference → Option ResourceReference → Exec K.State (Unit {0})
  deletions helm kust =
      when_set helm (delete_helm_release K m (target_namespace m mt))
      >> when_set kust (delete_kustomization K m (target_namespace m mt))

  deletions-left :
      (h : Option HelmReleaseTemplateSpec) (k : Option KustomizationTemplateSpec)
      (ref : ResourceReference) (old old' : Option ResourceReference)
      → IsLeft h k
      → Untouched K j other
          (deletions (switch h k (some ref) none old) (switch h k none (some ref) old'))
  unfolding deletions
  deletions-left (some _) k ref old old' d =
      Untouched-then K j other (delete_helm_release K m (target_namespace m mt)) (λ s. (ok tt, s))
        (λ s. delete_helm_release-OnlyAt K C m (target_namespace m mt) s j other d) (λ s. refl)
  deletions-left none (some _) ref old old' d =
      Untouched-then K j other (λ s. (ok tt, s)) (delete_kustomization K m (target_namespace m mt))
        (λ s. refl) (λ s. delete_kustomization-OnlyAt K C m (target_namespace m mt) s j other d)
  deletions-left none none ref old old' d = absurd d

  -- The Module as the last sync left it.
  abbrev pub recorded : K.State → Module
  recorded u = with_status m (new_status K m mt u)

  delete_flux_resources-left :
      (u : K.State)
      → IsLeft mt.body.spec.helm_release mt.body.spec.kustomization
      → Untouched K j other (delete_flux_resources K (recorded u) (target_namespace m mt))
  unfolding delete_flux_resources new_status deletions
  delete_flux_resources-left u d =
      unless-Untouched K j other (target_namespace m mt == "")
        (deletions (recorded u).body.status.helm_release_ref
          (recorded u).body.status.kustomization_ref)
        (deletions-left mt.body.spec.helm_release mt.body.spec.kustomization (module_ref m mt)
          m.body.status.helm_release_ref m.body.status.kustomization_ref d)

  reconcile_delete-left :
      (u : K.State)
      → IsLeft mt.body.spec.helm_release mt.body.spec.kustomization
      → modules ≢ j
      → target_namespace m mt ≢ ""
      → Untouched K j other (reconcile_delete K (recorded u))
  unfolding reconcile_delete
  reconcile_delete-left u d own given s =
      let namespace = resolve_cleanup_namespace K (recorded u) s in
      let resolved : (namespace ≡ target_namespace m mt) =
        resolve_cleanup_namespace-new_status K m (recorded u) mt u s
          (IsValid_of_left mt.body.spec.helm_release mt.body.spec.kustomization d)
          (rw (target_namespace-own_or m mt) at given) refl
        ∙ sym (target_namespace-own_or m mt) in
      elim (Bool-cases (K.contains_finalizer m.meta.finalizers module_finalizer)) [
        | inl carries ↦ rw carries (
            Untouched-then K j other (delete_flux_resources K (recorded u) namespace)
              (patch_module K (recorded u) (without_finalizer K (recorded u)))
              (subst (λ n. Untouched K j other (delete_flux_resources K (recorded u) n))
                (sym resolved) (delete_flux_resources-left u d))
              (patch_module-Untouched K C (recorded u) j other (inl own)) s)
        | inr lacks ↦ rw lacks refl
      ]

  -- An object, of any kind but Module, that is not the one that the template asks for now, such as
  -- the HelmRelease that the same Module made in another namespace, or made before its template
  -- turned to a Kustomization: a sync of the Module, whether it succeeds or fails, leaves it as it
  -- is, and so does, once the status of the sync is stored, the cleanup of the Module.
  pub sync-leaves :
      IsLeft mt.body.spec.helm_release mt.body.spec.kustomization
      → modules ≢ j
      → target_namespace m mt ≢ ""
      → (recorder : Recorder) (version : String)
      → Unmoved K j other (sync K recorder version m mt)
        × ((u : K.State) → Untouched K j other (reconcile_delete K (recorded u)))
  sync-leaves d own given recorder version = (
    sync-Unmoved K C j other own recorder version m mt (reconcile_resources-left version d),
    λ u. reconcile_delete-left u d own given,
  )
