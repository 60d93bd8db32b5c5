-- ===== src/System.antt =====
-- The operator at work: reconciles of both controllers, one request at a time and in any order,
-- between the writes of others (internal/controller/tenant/workspace_controller.go and
-- internal/controller/addons/module_controller.go).
pub mod ModuleRuns
use otterscale_operator.Common.{String, ◌≡◌, ◌≢◌, Bool}
use otterscale_operator.Common.Dict.{Dict}
use otterscale_operator.Common.Exec.{ok}
use otterscale_operator.Api.Meta.{ObjectKey}
use otterscale_operator.Api.Workspace.{Workspace}
use otterscale_operator.Api.Owned.{Kind, workspaces}
use otterscale_operator.Kube.{Kube}
use otterscale_operator.Kube.Laws.{ClientLaws, OwnershipLaws}
use otterscale_operator.Controller.{Recorder, World}
use otterscale_operator.Tenant.Sync.{Synced}
use otterscale_operator.Tenant.Managed.{Managed, Managed-ne_kind, Synced-of_same}
use otterscale_operator.Tenant.Tenancy.{reconcile-Synced_other}
use otterscale_operator.Tenant.Reconcile
use otterscale_operator.Addons.Reconcile as Modules
use otterscale_operator.Addons.Frame.{IsForeign, reconcile-Unmoved}

-- What can happen, from the point of view of the Workspace `v`, while nobody asks for its own
-- reconcile: a request for another Workspace, in any version and with any readings of the flag; a
-- request for a Module; and a write by a user or another controller, also of Workspaces, Modules
-- and templates, that leaves the objects of `v` alone.
pub data Step (K : Kube) (v : Workspace) : World K → World K → Type 0 where
  workspace_request :
      (recorder : Recorder) (version : String) (b c : Bool) (request : ObjectKey) {s t : World K}
      → ((w : Workspace) → K.get workspaces request s.cluster ≡ ok w → v.meta.name ≢ w.meta.name)
      → t ≡ (Reconcile.reconcile K recorder version b c request s).1
      → Step K v s t
  module_request :
      (recorder : Recorder) (version : String) (request : ObjectKey) {s t : World K}
      → t ≡ (Modules.reconcile K recorder version request s).1
      → Step K v s t
  write :
      {s t : World K}
      → ((j : Kind) (other : ObjectKey)
          → Managed v j other
          → K.lookup j other t.cluster ≡ K.lookup j other s.cluster)
      → Step K v s t

pub data Run (K : Kube) (v : Workspace) : World K → World K → Type 0 where
  done : {s : World K} → Run K v s s
  next : {s t u : World K} → Step K v s t → Run K v t u → Run K v s u

Managed-IsForeign : (v : Workspace) {j : Kind} {other : ObjectKey} → Managed v j other → IsForeign j
Managed-IsForeign v m =
    let (_, own, _, release, kustomization) = Managed-ne_kind v m in
    record { own = own; release = release; kustomization = kustomization }

module _ (K : Kube) (C : ClientLaws K) (O : OwnershipLaws K) (v : Workspace) (version : String)
    (istio : Bool) (labels : Dict String) where
  Step-Synced :
      {s t : World K}
      → Step K v s t
      → Synced K C v version istio labels s.cluster
      → Synced K C v version istio labels t.cluster
  Step-Synced {s} (workspace_request recorder at b c request apart e) d =
      rw e (reconcile-Synced_other K C O v version istio labels recorder at b c request s apart d)
  Step-Synced {s} (module_request recorder at request e) d = rw e (
      Synced-of_same K C v version istio
        (λ j other m. reconcile-Unmoved K C j other (Managed-IsForeign v m) recorder at request s)
        d)
  Step-Synced (write same) d = Synced-of_same K C v version istio same d

  -- Once all that a Workspace asks for is in the cluster, it stays so through every sequence of
  -- reconciles of Modules and of other Workspaces, whether these succeed or fail and also if one of
  -- them names the same namespace, and of writes that leave its objects alone.
  pub Run-Synced :
      {s t : World K}
      → Run K v s t
      → Synced K C v version istio labels s.cluster
      → Synced K C v version istio labels t.cluster
  Run-Synced done d = d
  Run-Synced (next step run) d = Run-Synced run (Step-Synced step d)
