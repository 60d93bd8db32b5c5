-- ===== src/Tenant/Frame.antt =====
-- What a reconcile of a Workspace leaves of other objects.
use otterscale_operator.Common.{not, ◌≡◌, ◌≢◌, refl, ◌∙◌, String, Bool, inl, Option, none, some}
use otterscale_operator.Common.Exec.{Error, Result, ok, err, ◌>>=◌, pure}
use otterscale_operator.Api.Meta.{ObjectKey}
use otterscale_operator.Api.Workspace.{Workspace}
use otterscale_operator.Api.Owned.{Kind, workspaces}
use otterscale_operator.Kube.{Kube}
use otterscale_operator.Kube.Laws.{ClientLaws}
use otterscale_operator.Controller.{Recorder, World, on_cluster, eventf, branch}
use otterscale_operator.Controller.Frame.{
  Keeps, Unmoved, eventf-Keeps, bind-Keeps, branch-Keeps, if-Keeps,
}
use otterscale_operator.Tenant.Status.{new_status, update_status, with_status, reconciled_event}
use otterscale_operator.Tenant.Reconcile.Laws.{warning, failed}
use otterscale_operator.Tenant.Reconcile.{
  returned_error, return_error, handle_reconcile_error, reconcile_resources, reconcile_found,
  reconcile,
}

-- What is seen stays while only the status of a Workspace is written.
abbrev pub KeptByStatus : (K : Kube) {X : Type 0} → (K.State → X) → Type 0
KeptByStatus K look =
    (w o : Workspace) (s : K.State)
    → o.meta ≡ w.meta
    → look (K.patch_status workspaces w o s).1 ≡ look s

module _ (K : Kube) {X : Type 0} (look : K.State → X) (kept : KeptByStatus K look) where
  pub update_status-Keeps :
      (recorder : Recorder) (w : Workspace) (c : Bool) → Keeps K look (update_status K recorder w c)
  unfolding update_status
  update_status-Keeps recorder w c =
      let status = new_status K w c in
      let patch = on_cluster K (K.patch_status workspaces w (with_status w status)) in
      if-Keeps K look (not (K.equal_workspace_status w.body.status status))
        (patch >>= λ _. eventf K recorder (reconciled_event w)) (pure tt)
        (bind-Keeps K look patch (λ _. eventf K recorder (reconciled_event w))
          (λ s. kept w (with_status w status) s.cluster refl)
          (λ _. eventf-Keeps K look recorder (reconciled_event w)))
        (λ s. refl)

  return_error-Keeps : (o : Option Error) → Keeps K look (return_error o)
  return_error-Keeps none = λ s. refl
  return_error-Keeps (some e) = λ s. refl

  handle_reconcile_error-Keeps :
      (recorder : Recorder) (w : Workspace) (e : Error)
      → Keeps K look (handle_reconcile_error K recorder w e)
  unfolding handle_reconcile_error
  handle_reconcile_error-Keeps recorder w e = λ s.
      bind-Keeps K look (eventf K recorder (warning K e)) (λ _. return_error (returned_error e))
        (eventf-Keeps K look recorder (warning K e)) (λ _. return_error-Keeps (returned_error e))
        (record {
          cluster = (K.patch_status workspaces w (failed K w e) s.cluster).1;
          events = s.events;
        })
      ∙ kept w (failed K w e) s.cluster refl

  -- A reconcile whose sync keeps what is seen does so too.
  pub reconcile_found-keeps :
      (recorder : Recorder) (version : String) (b c : Bool) (w : Workspace) (s : World K)
      → look (reconcile_resources K w version b s.cluster).1 ≡ look s.cluster
      → look (reconcile_found K recorder version b c w s).1.cluster ≡ look s.cluster
  unfolding reconcile_found
  reconcile_found-keeps recorder version b c w s same =
      branch-Keeps K look (handle_reconcile_error K recorder w) (λ _. update_status K recorder w c)
        (handle_reconcile_error-Keeps recorder w) (λ _. update_status-Keeps recorder w c)
        (on_cluster K (reconcile_resources K w version b) s)
      ∙ same

  by_read :
      (recorder : Recorder) (version : String) (b c : Bool) (s : World K) (r : Result Workspace)
      → ((w : Workspace)
          → r ≡ ok w
          → look (reconcile_resources K w version b s.cluster).1 ≡ look s.cluster)
      → look
          (branch
            (λ e. return_error (K.ignore_not_found e))
            (reconcile_found K recorder version b c)
            (r, s)).1.cluster
        ≡ look s.cluster
  by_read recorder version b c s (ok w) same =
      reconcile_found-keeps recorder version b c w s (same w refl)
  by_read recorder version b c s (err e) same = return_error-Keeps (K.ignore_not_found e) s

  -- A reconcile keeps what is seen if the sync of the Workspace that it reads does.
  pub reconcile-keeps :
      (recorder : Recorder) (version : String) (b c : Bool) (request : ObjectKey) (s : World K)
      → ((w : Workspace)
          → K.get workspaces request s.cluster ≡ ok w
          → look (reconcile_resources K w version b s.cluster).1 ≡ look s.cluster)
      → look (reconcile K recorder version b c request s).1.cluster ≡ look s.cluster
  unfolding reconcile
  reconcile-keeps recorder version b c request s same =
      by_read recorder version b c s (K.get workspaces request s.cluster) same

module _ (K : Kube) (C : ClientLaws K) (j : Kind) (other : ObjectKey) (ne : workspaces ≢ j) where
  other_kind-KeptByStatus : KeptByStatus K (K.lookup j other)
  other_kind-KeptByStatus w o s same = C.lookup-patch_status_ne workspaces w o s j other (inl ne)

  pub update_status-Unmoved :
      (recorder : Recorder) (w : Workspace) (c : Bool)
      → Unmoved K j other (update_status K recorder w c)
  update_status-Unmoved = update_status-Keeps K (K.lookup j other) other_kind-KeptByStatus

  -- A reconcile leaves the object as it is if the sync of the Workspace that it reads does.
  pub reconcile-unmoved :
      (recorder : Recorder) (version : String) (b c : Bool) (request : ObjectKey) (s : World K)
      → ((w : Workspace)
          → K.get workspaces request s.cluster ≡ ok w
          → K.lookup j other (reconcile_resources K w version b s.cluster).1
            ≡ K.lookup j other s.cluster)
      → K.lookup j other (reconcile K recorder version b c request s).1.cluster
        ≡ K.lookup j other s.cluster
  reconcile-unmoved = reconcile-keeps K (K.lookup j other) other_kind-KeptByStatus
