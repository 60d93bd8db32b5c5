-- ===== src/Tests/Tenant.antt =====
-- The theorems on the Workspace controller at the small cluster.
use mathlib.Core.Bool.{decide}
use native.Mathlib.Decide.{ℕ_discrete}
use otterscale_operator.Common.{◌≡◌, refl, String, true, false, none, some, [], ◌∷◌, inl, ◌⊎◌}
use otterscale_operator.Common.Dict.{lookup}
use otterscale_operator.Common.Exec.{ok, err, namespace_conflict, foreign}
use otterscale_operator.Api.Meta.{entries}
use otterscale_operator.Api.Workspace.{Workspace}
use otterscale_operator.Api.Owned.{namespaces, workspaces}
use otterscale_operator.Kube.Laws.{current}
use otterscale_operator.Controller.{live, World}
use otterscale_operator.Workspace.Namespace.{
  namespace_labels, new_namespace, reconcile_namespace, mutate_namespace,
}
use otterscale_operator.Workspace.Namespace.Laws.{lookup-namespace_labels}
use otterscale_operator.Tenant.Reconcile.{reconcile_resources, reconcile}
use otterscale_operator.Tenant.Reconcile.Laws.{
  warning, reconcile_conflict, SaysNotReady, reconcile_transient,
}
use otterscale_operator.Kube.{Kube}
use otterscale_operator.Kube.Laws.{CanRead, ConditionLaws}
use otterscale_operator.Workspace.Helpers.{is_owned}
use otterscale_operator.Workspace.RoleBindings.{known_roles, reconcile_role_bindings}
use otterscale_operator.Workspace.Constraints.{reconcile_resource_quota, reconcile_limit_range}
use otterscale_operator.Workspace.Network.{reconcile_network_isolation}
use otterscale_operator.Workspace.Network.Admission.{Source}
use otterscale_operator.Workspace.RoleBindings.Laws.{NoBinding-of_kind}
use otterscale_operator.Tenant.Reconcile.Success.{reconcile-Synced}
use otterscale_operator.Tenant.Sync.{Outside}
use otterscale_operator.Tenant.Detector.{refresh_all}
use otterscale_operator.Tenant.Detector.Laws.{refresh_all-last_answer}
use otterscale_operator.Tests.Store.{read}
use otterscale_operator.Tenant.Sync.{
  Synced, reconcile_resources-Synced, reconcile_resources-Untouched,
}
use otterscale_operator.Tests.Store.{Store, put}
use otterscale_operator.Tests.Sim.{sim, WorkspaceStatus-discrete}
use otterscale_operator.Tests.SimLaws.{client_laws, ownership_laws, error_laws, condition_laws}
use otterscale_operator.Tests.Data.{
  at_cluster, team, team_store, taken_store, foreign_namespace, world,
}

abbrev synced_store : Store
unfolding reconcile_resources put
synced_store = (reconcile_resources sim team "v1" true team_store).1

team-syncs : reconcile_resources sim team "v1" true team_store ≡ (ok tt, synced_store)
unfolding reconcile_resources put reconcile_namespace mutate_namespace reconcile_role_bindings
    reconcile_resource_quota reconcile_limit_range reconcile_network_isolation
team-syncs = refl

reconcile_resources-Synced_example :
    Synced sim client_laws team "v1" true
      (entries (current sim namespaces (new_namespace team) team_store).meta.labels)
      synced_store
reconcile_resources-Synced_example =
    reconcile_resources-Synced sim client_laws team "v1" true ownership_laws error_laws team_store
      team-syncs

team_itself : Outside sim client_laws team "v1" true workspaces (at_cluster "team")
team_itself = record {
  namespace = inl (λ e. cc);
  bindings = NoBinding-of_kind team workspaces (at_cluster "team") known_roles (λ e. cc);
  quota = inl (λ e. cc);
  limits = inl (λ e. cc);
  policy = inl (λ e. cc);
  peer = inl (λ e. cc);
  authorization = inl (λ e. cc);
}

reconcile_resources-Untouched_example :
    read workspaces (at_cluster "team") (reconcile_resources sim team "v1" true team_store).1
    ≡ read workspaces (at_cluster "team") team_store
reconcile_resources-Untouched_example =
    reconcile_resources-Untouched sim client_laws team "v1" true workspaces (at_cluster "team")
      team_itself team_store

abbrev reconciled_world : World sim
unfolding reconcile put
reconciled_world = (reconcile sim live "v1" true true (at_cluster "team") (world team_store)).1

team-read : sim.get workspaces (at_cluster "team") team_store ≡ ok team
unfolding put
team-read = refl

team-reconciles :
    reconcile sim live "v1" true true (at_cluster "team") (world team_store)
    ≡ (ok tt, reconciled_world)
unfolding reconcile put reconcile_namespace mutate_namespace reconcile_role_bindings
    reconcile_resource_quota reconcile_limit_range reconcile_network_isolation decide
    WorkspaceStatus-discrete ℕ_discrete
team-reconciles = refl

reconcile-Synced_example :
    ((name : String) × ((reconcile_resources sim team "v1" true team_store).0
        ≡ err (namespace_conflict name)))
    ⊎ Synced sim client_laws team "v1" true
        (entries (current sim namespaces (new_namespace team) team_store).meta.labels)
        reconciled_world.cluster
reconcile-Synced_example =
    reconcile-Synced sim client_laws ownership_laws error_laws "v1" true true team
      (at_cluster "team") (world team_store) team-read team-reconciles

taken-read : sim.get workspaces (at_cluster "team") taken_store ≡ ok team
unfolding put
taken-read = refl

taken-found : read namespaces (at_cluster "team-ns") taken_store ≡ some foreign_namespace
unfolding put
taken-found = refl

taken-readable : CanRead sim namespaces (at_cluster "team-ns") taken_store
unfolding put
taken-readable e h = cc

not_theirs : is_owned foreign_namespace.meta.owner_references team.meta.uid ≡ false
unfolding is_owned
not_theirs = refl

reconcile_conflict_example :
    let (r, t) = reconcile sim live "v1" true true (at_cluster "team") (world taken_store) in
    (r ≡ ok tt)
    × (t.events ≡ warning sim (namespace_conflict "team-ns") ∷ [])
    × (read namespaces (at_cluster "team-ns") t.cluster
        ≡ read namespaces (at_cluster "team-ns") taken_store)
reconcile_conflict_example =
    reconcile_conflict sim client_laws "v1" true true (at_cluster "team") team foreign_namespace
      (world taken_store) taken-read taken-readable taken-found not_theirs namespaces
      (at_cluster "team-ns") (inl (λ e. cc))

lookup-namespace_labels_example :
    lookup "istio-injection"
      (namespace_labels team "v1" false (("istio-injection", "enabled") ∷ []))
    ≡ none
lookup-namespace_labels_example =
    lookup-namespace_labels team "v1" false (("istio-injection", "enabled") ∷ []) "istio-injection"

refresh_all-last_answer_example :
    refresh_all sim
      (ok tt ∷ err (foreign "timeout") ∷ [])
      (record { has_client = true; enabled = false })
    ≡ record { has_client = true; enabled = true }
refresh_all-last_answer_example =
    refresh_all-last_answer sim (ok tt ∷ err (foreign "timeout") ∷ [])
      (record { has_client = true; enabled = false }) refl

-- A cluster in which nothing can be deleted.
abbrev failing : Kube
failing = record sim { delete = λ k key s. (err (foreign "timeout"), s) }

abbrev stuck_store : Store
unfolding reconcile_resources put
stuck_store = (reconcile_resources failing team "v1" true team_store).1

team-stuck :
    reconcile_resources failing team "v1" true team_store ≡ (err (foreign "timeout"), stuck_store)
unfolding reconcile_resources put reconcile_namespace mutate_namespace reconcile_role_bindings
team-stuck = refl

team-read_failing : failing.get workspaces (at_cluster "team") team_store ≡ ok team
unfolding put
team-read_failing = refl

failing_conditions : ConditionLaws failing
failing_conditions = record {
  find-set_self = condition_laws.find-set_self;
  find_nil = condition_laws.find_nil;
  find_cons = condition_laws.find_cons;
  set_unchanged = condition_laws.set_unchanged;
  find-set_ne = condition_laws.find-set_ne;
}

reconcile_transient_example :
    (sent : Workspace) × (reconcile failing live "v1" true true
        (at_cluster "team")
        (record { cluster = team_store; events = [] })
      ≡ (
        err (foreign "timeout"),
        record {
          cluster = (failing.patch_status workspaces team sent stuck_store).1;
          events = warning failing (foreign "timeout") ∷ [];
        },
      ))
    × SaysNotReady failing team "ReconcileError" (foreign "timeout") sent
reconcile_transient_example =
    reconcile_transient failing failing_conditions "v1" true true (at_cluster "team") team
      (record { cluster = team_store; events = [] }) team-read_failing team-stuck (λ name e. cc)

abbrev shared_pod : Source
shared_pod = record {
  namespace = "shared";
  namespace_labels = ("kubernetes.io/metadata.name", "shared") ∷ [];
  pod_labels = [];
}
