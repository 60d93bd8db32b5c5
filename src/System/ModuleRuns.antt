-- ===== src/System/ModuleRuns.antt =====
-- The operator at work, from the point of view of a Module.
use otterscale_operator.Common.{String, ◌≡◌, ◌≢◌, sym, ◌∙◌, ap, Bool, inr}
use otterscale_operator.Common.Exec.{ok}
use otterscale_operator.Api.Meta.{ObjectKey}
use otterscale_operator.Api.Workspace.{Workspace}
use otterscale_operator.Api.Module.{Module, ModuleTemplate}
use otterscale_operator.Api.Owned.{Kind, workspaces, modules, helm_releases, kustomizations}
use otterscale_operator.Kube.{Kube}
use otterscale_operator.Kube.Laws.{ClientLaws, AnswerLaws}
use otterscale_operator.Controller.{Recorder, World}
use otterscale_operator.Module.{target_namespace}
use otterscale_operator.Module.Flux.{flux_key}
use otterscale_operator.Addons.Laws.{Synced, SameFlux, Synced-of_flux}
use otterscale_operator.Addons.Frame.{Spares, reconcile-unmoved_by}
use otterscale_operator.Addons.Reconcile.{with_finalizer}
use otterscale_operator.Addons.Reconcile as Modules
use otterscale_operator.Tenant.Reconcile
use otterscale_operator.Tenant.Sync.{Outside, reconcile_resources-Untouched}
use otterscale_operator.Tenant.Outside.{kind-Outside}
use otterscale_operator.Tenant.Frame.{reconcile-unmoved}

module _ (K : Kube) (C : ClientLaws K) (A : AnswerLaws K) (m : Module) (mt : ModuleTemplate) where
  -- Another Module has other Flux objects, in any namespace.
  named_apart-Spares :
      (j : Kind) (own : modules ≢ j) (n : Module)
      → m.meta.name ≢ n.meta.name
      → Spares K C j (flux_key m (target_namespace m mt)) own n
  named_apart-Spares j own n apart namespace =
      let differ = λ (e : flux_key n namespace ≡ flux_key m (target_namespace m mt)).
        apart (sym (ap (λ (key : ObjectKey). key.name) e)) in
      (inr differ, inr differ)

  flux-of_module :
      (recorder : Recorder) (version : String) (request : ObjectKey) (s : World K)
      → ((n : Module) → K.get modules request s.cluster ≡ ok n → m.meta.name ≢ n.meta.name)
      → (j : Kind) → modules ≢ j
      → K.lookup j
          (flux_key m (target_namespace m mt))
          (Modules.reconcile K recorder version request s).1.cluster
        ≡ K.lookup j (flux_key m (target_namespace m mt)) s.cluster
  flux-of_module recorder version request s apart j own =
      reconcile-unmoved_by K C j (flux_key m (target_namespace m mt)) own recorder version request s
        (λ n got. (
          named_apart-Spares j own n (apart n got),
          λ answer t patched. named_apart-Spares j own answer (λ e.
              apart n got (e ∙ A.patch_name modules n (with_finalizer K n) s.cluster patched)),
        ))

module _ (K : Kube) (C : ClientLaws K) (m : Module) (mt : ModuleTemplate) where
  -- A reconcile of a Workspace writes no object of the two kinds.
  flux-of_workspace :
      (recorder : Recorder) (version : String) (b c : Bool) (request : ObjectKey) (s : World K)
      → SameFlux K m mt s.cluster (Reconcile.reconcile K recorder version b c request s).1.cluster
  flux-of_workspace recorder version b c request s =
      let key = flux_key m (target_namespace m mt) in
      let kept =
        λ (j : Kind) (ne : workspaces ≢ j)
            (outside : (w : Workspace) → Outside K C w version b j key).
          reconcile-unmoved K C j key ne recorder version b c request s
            (λ w got. reconcile_resources-Untouched K C w version b j key (outside w) s.cluster) in
      (
        kept helm_releases (λ e. cc)
            (λ w.
              kind-Outside K C w version b helm_releases key (λ e. cc) (λ e. cc) (λ e. cc) (λ e. cc)
                (λ e. cc) (λ e. cc) (λ e. cc)),
        kept kustomizations (λ e. cc)
            (λ w.
              kind-Outside K C w version b kustomizations key (λ e. cc) (λ e. cc) (λ e. cc)
                (λ e. cc) (λ e. cc) (λ e. cc) (λ e. cc)),
      )

-- What can happen, from the point of view of the Module, while nobody asks for its own reconcile: a
-- request for a Workspace; a request for another Module; and a write by a user or another
-- controller that leaves the Flux object of the Module alone.
pub data ModuleStep (K : Kube) (m : Module) (mt : ModuleTemplate) : World K → World K → Type 0 where
  workspace_request :
      (recorder : Recorder) (version : String) (b c : Bool) (request : ObjectKey) {s t : World K}
      → t ≡ (Reconcile.reconcile K recorder version b c request s).1
      → ModuleStep K m mt s t
  module_request :
      (recorder : Recorder) (version : String) (request : ObjectKey) {s t : World K}
      → ((n : Module) → K.get modules request s.cluster ≡ ok n → m.meta.name ≢ n.meta.name)
      → t ≡ (Modules.reconcile K recorder version request s).1
      → ModuleStep K m mt s t
  write : {s t : World K} → SameFlux K m mt s.cluster t.cluster → ModuleStep K m mt s t

pub data ModuleRun (K : Kube) (m : Module) (mt : ModuleTemplate) : World K → World K → Type 0 where
  done : {s : World K} → ModuleRun K m mt s s
  next : {s t u : World K} → ModuleStep K m mt s t → ModuleRun K m mt t u → ModuleRun K m mt s u

module _ (K : Kube) (C : ClientLaws K) (A : AnswerLaws K) (m : Module) (mt : ModuleTemplate) where
  Step-SameFlux : {s t : World K} → ModuleStep K m mt s t → SameFlux K m mt s.cluster t.cluster
  Step-SameFlux {s} (workspace_request recorder at b c request e) =
      rw e (flux-of_workspace K C m mt recorder at b c request s)
  Step-SameFlux {s} (module_request recorder at request apart e) = rw e (
    flux-of_module K C A m mt recorder at request s apart helm_releases (λ e. cc),
    flux-of_module K C A m mt recorder at request s apart kustomizations (λ e. cc),
  )
  Step-SameFlux (write same) = same

  -- Once the cluster holds the Flux object that the template of a Module asks for, with the Module's
  -- values, labels and owner, it does so through every sequence of reconciles of Workspaces and of
  -- other Modules, whether these succeed or fail, and of writes that leave that object alone.
  pub Run-Synced_module :
      (version : String) (before : K.State) {s t : World K}
      → ModuleRun K m mt s t
      → Synced K m mt version before s.cluster
      → Synced K m mt version before t.cluster
  Run-Synced_module version before done d = d
  Run-Synced_module version before (next step run) d =
      Run-Synced_module version before run
        (Synced-of_flux K m mt version before (Step-SameFlux step) d)
