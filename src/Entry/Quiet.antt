-- ===== src/Entry/Quiet.antt =====
-- The controller of Workspaces does not ask for its own work: what it writes to a Workspace is left
-- out by the predicate of its watch (internal/controller/tenant/workspace_controller.go).
use mathlib.Core.List.{Memᴰ}
use otterscale_operator.Common.{
  String, ◌≡◌, ◌≢◌, refl, ap, some, Bool, true, false, ◌&&◌, List, [], ◌∷◌, ◌↔◌, inl, inr,
  Bool-cases,
}
use otterscale_operator.Api.Meta.{ObjectMeta, ObjectKey}
use otterscale_operator.Api.Workspace.{Workspace}
use otterscale_operator.Api.Owned.{
  workspaces, namespaces, role_bindings, resource_quotas, limit_ranges, network_policies,
}
use otterscale_operator.Entry.Watches.{mem_rest}
use otterscale_operator.Kube.{Kube}
use otterscale_operator.Kube.Laws.{ClientLaws, GenerationLaws, generation_of}
use otterscale_operator.Controller.{Recorder, World}
use otterscale_operator.Tenant.Detector.{IstioDetector}
use otterscale_operator.Tenant.Sync.{reconcile_resources-Untouched}
use otterscale_operator.Tenant.Outside.{kind-Outside}
use otterscale_operator.Tenant.Frame.{reconcile-keeps}
use otterscale_operator.Tenant.Reconcile.{reconcile}
use otterscale_operator.Entry.Controllers.{
  Predicate, WorkspaceReconciler, Watch, owns, watches, custom_resource_definitions,
  crd_to_workspaces, istio_crd, generation_changed, istio_watches, setup_workspace_controller,
}

-- The predicates of a watch let an update of an object through: all of them do.
abbrev pub lets_through :
    (Predicate → ObjectMeta → ObjectMeta → Bool) → List Predicate → ObjectMeta → ObjectMeta → Bool
lets_through accepts [] before after = true
lets_through accepts (p ∷ ps) before after =
    accepts p before after && lets_through accepts ps before after

no_for_kind :
    (ps : List Predicate) (enabled : Bool)
    → ¬ (Memᴰ (Watch.for_kind workspaces ps) (istio_watches enabled))
no_for_kind ps true (Memᴰ.head e) = cc
no_for_kind ps true (Memᴰ.tail (Memᴰ.head e)) = cc
no_for_kind ps true (Memᴰ.tail (Memᴰ.tail m)) = elim m [ ]
no_for_kind ps false m = elim m [ ]

-- The Workspaces themselves are watched through the generation predicate alone.
for_kind-predicates :
    (ps : List Predicate) (r : WorkspaceReconciler) (detector : IstioDetector)
    → Memᴰ (Watch.for_kind workspaces ps) (setup_workspace_controller r detector).watch_list
    → ps ≡ generation_changed ∷ []
unfolding setup_workspace_controller
for_kind-predicates ps r detector (Memᴰ.head e) = cc
for_kind-predicates ps r detector (Memᴰ.tail m) = absurd (
    no_for_kind ps detector.enabled (
      mem_rest (Watch.for_kind workspaces ps)
        (owns namespaces
          ∷ owns resource_quotas
          ∷ owns limit_ranges
          ∷ owns role_bindings
          ∷ owns network_policies
          ∷ watches custom_resource_definitions crd_to_workspaces (istio_crd ∷ [])
          ∷ [])
        (istio_watches detector.enabled)
        (λ e. cc, (λ e. cc, (λ e. cc, (λ e. cc, (λ e. cc, (λ e. cc, tt)))))) m))

module _ (K : Kube) (C : ClientLaws K) (G : GenerationLaws K) where
  -- A reconcile of any Workspace leaves the generations of all Workspaces.
  reconcile-generation :
      (recorder : Recorder) (version : String) (b c : Bool) (request key : ObjectKey) (s : World K)
      → generation_of
          (K.lookup workspaces key (reconcile K recorder version b c request s).1.cluster)
        ≡ generation_of (K.lookup workspaces key s.cluster)
  reconcile-generation recorder version b c request key s =
      reconcile-keeps K (λ t. generation_of (K.lookup workspaces key t))
        (λ w o t same. G.patch_status_generation w o t key same) recorder version b c request s
        (λ w got. ap generation_of (
          reconcile_resources-Untouched K C w version b workspaces key
            (kind-Outside K C w version b workspaces key (λ e. cc) (λ e. cc) (λ e. cc) (λ e. cc)
              (λ e. cc) (λ e. cc) (λ e. cc))
            s.cluster))

  -- The predicates of each watch of the controller of Workspaces on the Workspaces themselves leave
  -- out the update of any Workspace that a reconcile of a Workspace makes, for a generation
  -- predicate that accepts an update exactly when the generations differ and an API server that keeps
  -- the generation when the status is written.
  pub reconcile-unnoticed :
      (accepts : Predicate → ObjectMeta → ObjectMeta → Bool)
      → ((a b : ObjectMeta)
          → (accepts generation_changed a b ≡ true) ↔ (a.generation ≢ b.generation))
      → (r : WorkspaceReconciler) (detector : IstioDetector) (b c : Bool)
      → (request key : ObjectKey) (s : World K) {before after : Workspace} {ps : List Predicate}
      → K.lookup workspaces key s.cluster ≡ some before
      → K.lookup workspaces key (reconcile K r.recorder r.version b c request s).1.cluster
        ≡ some after
      → Memᴰ (Watch.for_kind workspaces ps) (setup_workspace_controller r detector).watch_list
      → lets_through accepts ps before.meta after.meta ≡ false
  reconcile-unnoticed accepts law r detector b c request key s {before} {after} {ps} old new m =
      let same_generation = reconcile-generation r.recorder r.version b c request key s in
      let same : (before.meta.generation ≡ after.meta.generation) = cc in
      elim (Bool-cases (accepts generation_changed before.meta after.meta)) [
        | inl let_in ↦ absurd ((law before.meta after.meta).0 let_in same)
        | inr left_out ↦ rw (for_kind-predicates ps r detector m, left_out) refl
      ]
