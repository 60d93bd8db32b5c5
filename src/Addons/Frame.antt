-- ===== src/Addons/Frame.antt =====
-- What a reconcile of a Module leaves of other objects.
use otterscale_operator.Common.{
  not, ◌≡◌, ◌≢◌, refl, ◌∙◌, String, inl, inr, Bool-cases, Option, none, some, List,
}
use otterscale_operator.Common.Exec.{Error, Result, ok, err, continue, ◌>>=◌, pure}
use otterscale_operator.Api.Meta.{ObjectKey}
use otterscale_operator.Api.Module.{Module, ModuleTemplate}
use otterscale_operator.Api.Owned.{Kind, modules, helm_releases, kustomizations}
use otterscale_operator.Kube.{Kube, Differ}
use otterscale_operator.Kube.Laws.{ClientLaws}
use otterscale_operator.Kube.Sync.{Untouched, Untouched-then}
use otterscale_operator.Workspace.Namespace.{is_zero}
use otterscale_operator.Controller.{Event, Recorder, World, branch, on_cluster, eventf}
use otterscale_operator.Controller.Frame.{Unmoved, eventf-Keeps, bind-Keeps, branch-Keeps, if-Keeps}
use otterscale_operator.Module.{module_finalizer, target_namespace}
use otterscale_operator.Module.Flux.{flux_key}
use otterscale_operator.Addons.{fetch_module_template, reconcile_resources}
use otterscale_operator.Addons.Laws.{reconcile_resources-OnlyFlux}
use otterscale_operator.Addons.Cleanup.{
  resolve_cleanup_namespace, delete_flux_resources, without_finalizer, patch_module,
  reconcile_delete,
}
use otterscale_operator.Addons.Cleanup.Laws.{
  patch_module-Untouched, delete_flux_resources-Untouched,
}
use otterscale_operator.Addons.Status.{new_status, update_status, with_status, reconciled_event}
use otterscale_operator.Addons.Reconcile.{
  returned_error, return_error, warning, handle_reconcile_error, with_finalizer, ensure_finalizer,
  sync, reconcile_live, reconcile_found, reconcile,
}
use otterscale_operator.Addons.Reconcile.Laws.{failed}

module _ (K : Kube) (C : ClientLaws K) (j : Kind) (other : ObjectKey) (own : modules ≢ j) where
  pub update_status-Unmoved :
      (recorder : Recorder) (m : Module) (mt : ModuleTemplate)
      → Unmoved K j other (update_status K recorder m mt)
  unfolding update_status
  update_status-Unmoved recorder m mt s =
      let status = new_status K m mt s.cluster in
      let patch = on_cluster K (K.patch_status modules m (with_status m status)) in
      if-Keeps K (K.lookup j other) (not (K.equal_module_status m.body.status status))
        (patch >>= λ _. eventf K recorder (reconciled_event m)) (pure tt)
        (bind-Keeps K (K.lookup j other) patch (λ _. eventf K recorder (reconciled_event m))
          (λ u.
            C.lookup-patch_status_ne modules m (with_status m status) u.cluster j other (inl own))
          (λ _. eventf-Keeps K (K.lookup j other) recorder (reconciled_event m)))
        (λ u. refl) s

  return_error-Unmoved : (o : Option Error) → Unmoved K j other (return_error o)
  return_error-Unmoved none = λ s. refl
  return_error-Unmoved (some e) = λ s. refl

  handle_reconcile_error-Unmoved :
      (recorder : Recorder) (m : Module) (e : Error)
      → Unmoved K j other (handle_reconcile_error K recorder m e)
  unfolding handle_reconcile_error
  handle_reconcile_error-Unmoved recorder m e = λ s.
      bind-Keeps K (K.lookup j other) (eventf K recorder (warning K e))
        (λ _. return_error (returned_error e))
        (eventf-Keeps K (K.lookup j other) recorder (warning K e))
        (λ _. return_error-Unmoved (returned_error e))
        (record {
          cluster = (K.patch_status modules m (failed K m e) s.cluster).1;
          events = s.events;
        })
      ∙ C.lookup-patch_status_ne modules m (failed K m e) s.cluster j other (inl own)

  -- A sync leaves what its writing of the Flux object leaves.
  pub sync-Unmoved :
      (recorder : Recorder) (version : String) (m : Module) (mt : ModuleTemplate)
      → Untouched K j other (reconcile_resources K m mt version)
      → Unmoved K j other (sync K recorder version m mt)
  unfolding sync
  sync-Unmoved recorder version m mt untouched s =
      branch-Keeps K (K.lookup j other) (handle_reconcile_error K recorder m)
        (λ _. update_status K recorder m mt) (handle_reconcile_error-Unmoved recorder m)
        (λ _. update_status-Unmoved recorder m mt)
        (on_cluster K (reconcile_resources K m mt version) s)
      ∙ untouched s.cluster

module _ (K : Kube) (C : ClientLaws K) (j : Kind) (other : ObjectKey) (own : modules ≢ j) where
  -- It is none of the Flux objects of the Module, in any namespace.
  abbrev pub Spares : Module → Type 0
  Spares m =
      (namespace : String)
      → Differ helm_releases (flux_key m namespace) j other
        × Differ kustomizations (flux_key m namespace) j other

  -- The same for what the API server answers where the finalizer is added.
  abbrev pub SparesAnswer : Module → K.State → Type 0
  SparesAnswer m s =
      (answer : Module) (t : K.State)
      → K.patch modules m (with_finalizer K m) s ≡ (ok answer, t)
      → Spares answer

  reconcile_live-Unmoved :
      (recorder : Recorder) (version : String) (m : Module)
      → Spares m
      → Unmoved K j other (reconcile_live K recorder version m)
  unfolding reconcile_live
  reconcile_live-Unmoved recorder version m spares s =
      branch-Keeps K (K.lookup j other) (handle_reconcile_error K recorder m)
        (sync K recorder version m) (handle_reconcile_error-Unmoved K C j other own recorder m)
        (λ mt.
          let flux = spares (target_namespace m mt) in
          sync-Unmoved K C j other own recorder version m mt
            (reconcile_resources-OnlyFlux K m mt version C j other flux.0 flux.1))
        (fetch_module_template K m.body.spec.template_ref s.cluster, s)

  reconcile_delete-Untouched : (m : Module) → Spares m → Untouched K j other (reconcile_delete K m)
  unfolding reconcile_delete
  reconcile_delete-Untouched m spares s =
      elim (Bool-cases (K.contains_finalizer m.meta.finalizers module_finalizer)) [
        | inl carries ↦
            let namespace = resolve_cleanup_namespace K m s in
            rw carries (
              Untouched-then K j other (delete_flux_resources K m namespace)
                (patch_module K m (without_finalizer K m))
                (delete_flux_resources-Untouched K C m namespace j other (spares namespace).0
                  (spares namespace).1)
                (patch_module-Untouched K C m j other (inl own)) s)
        | inr lacks ↦ rw lacks refl
      ]

  answered-unmoved :
      (recorder : Recorder) (version : String) (events : List (Event)) (p : Result Module × K.State)
      → ((answer : Module) (t : K.State) → p ≡ (ok answer, t) → Spares answer)
      → K.lookup j other
          (continue {S = World K}
            (p.0, record { cluster = p.1; events = events })
            (reconcile_live K recorder version)).1.cluster
        ≡ K.lookup j other p.1
  answered-unmoved recorder version events (ok answer, t) spares =
      reconcile_live-Unmoved recorder version answer (spares answer t refl)
        (record { cluster = t; events = events })
  answered-unmoved recorder version events (err e, t) spares = refl

  -- With the finalizer in place, the rest of the reconcile.
  ensured-unmoved :
      (recorder : Recorder) (version : String) (m : Module) (s : World K)
      → Spares m
      → SparesAnswer m s.cluster
      → K.lookup j other
          ((on_cluster K (ensure_finalizer K m) >>= reconcile_live K recorder version) s).1.cluster
        ≡ K.lookup j other s.cluster
  unfolding ensure_finalizer
  ensured-unmoved recorder version m s spares answer =
      elim (Bool-cases (K.contains_finalizer m.meta.finalizers module_finalizer)) [
        | inl carries ↦ rw carries (reconcile_live-Unmoved recorder version m spares s)
        | inr lacks ↦ rw lacks (
            answered-unmoved recorder version s.events
              (K.patch modules m (with_finalizer K m) s.cluster) answer
            ∙ C.lookup-patch_ne modules m (with_finalizer K m) s.cluster j other (inl own))
      ]

  reconcile_found-unmoved :
      (recorder : Recorder) (version : String) (m : Module) (s : World K)
      → Spares m
      → SparesAnswer m s.cluster
      → K.lookup j other (reconcile_found K recorder version m s).1.cluster
        ≡ K.lookup j other s.cluster
  unfolding reconcile_found
  reconcile_found-unmoved recorder version m s spares answer =
      elim (Bool-cases (is_zero m.meta.deletion_timestamp)) [
        | inl live ↦ rw live (ensured-unmoved recorder version m s spares answer)
        | inr deleted ↦ rw deleted (reconcile_delete-Untouched m spares s.cluster)
      ]

  by_read :
      (recorder : Recorder) (version : String) (s : World K) (read : Result Module)
      → ((m : Module) → read ≡ ok m → Spares m × SparesAnswer m s.cluster)
      → K.lookup j other
          (branch
            (λ e. return_error (K.ignore_not_found e))
            (reconcile_found K recorder version)
            (read, s)).1.cluster
        ≡ K.lookup j other s.cluster
  by_read recorder version s (ok m) spares =
      reconcile_found-unmoved recorder version m s (spares m refl).0 (spares m refl).1
  by_read recorder version s (err e) spares =
      return_error-Unmoved K C j other own (K.ignore_not_found e) s

  -- A reconcile for a request leaves an object that is not a Module and none of the Flux objects of
  -- the Module that is read.
  pub reconcile-unmoved_by :
      (recorder : Recorder) (version : String) (request : ObjectKey) (s : World K)
      → ((m : Module)
          → K.get modules request s.cluster ≡ ok m
          → Spares m × SparesAnswer m s.cluster)
      → K.lookup j other (reconcile K recorder version request s).1.cluster
        ≡ K.lookup j other s.cluster
  unfolding reconcile
  reconcile-unmoved_by recorder version request s =
      by_read recorder version s (K.get modules request s.cluster)

-- A kind that the controller of Modules does not write.
pub record IsForeign (j : Kind) : Type 0 where
  pub own : modules ≢ j
  pub release : helm_releases ≢ j
  pub kustomization : kustomizations ≢ j

-- A reconcile of any Module, on each of its paths, changes no object of a kind that is not
-- Module, HelmRelease or Kustomization.
pub reconcile-Unmoved :
    (K : Kube) (C : ClientLaws K) (j : Kind) (other : ObjectKey)
    → IsForeign j
    → (recorder : Recorder) (version : String) (request : ObjectKey)
    → Unmoved K j other (reconcile K recorder version request)
reconcile-Unmoved K C j other f recorder version request s =
    reconcile-unmoved_by K C j other f.own recorder version request s (λ m got. (
      λ namespace. (inl f.release, inl f.kustomization),
      λ answer t patched namespace. (inl f.release, inl f.kustomization),
    ))
