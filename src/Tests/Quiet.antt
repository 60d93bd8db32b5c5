-- ===== src/Tests/Quiet.antt =====
-- A reconcile of a Workspace in a cluster where the status of an object is written apart from the
-- rest of it.
use native.Mathlib.Decide.{ℕ_discrete}
use mathlib.Core.List.{Memᴰ}
use mathlib.Core.Bool.{decide}
use otterscale_operator.Workspace.Namespace.{reconcile_namespace, mutate_namespace}
use otterscale_operator.Workspace.RoleBindings.{reconcile_role_bindings}
use otterscale_operator.Workspace.Constraints.{reconcile_resource_quota, reconcile_limit_range}
use otterscale_operator.Workspace.Network.{reconcile_network_isolation}
use otterscale_operator.Common.{
  ℕ, ◌≡◌, ◌≢◌, ◌↔◌, refl, sym, ◌∙◌, ap, Bool, true, false, Option, some, none, [], ◌∷◌, inl, inr,
  Bool-cases, arith, eq_iff,
}
use otterscale_operator.Common.Exec.{Result, ok, err}
use otterscale_operator.Api.Meta.{ObjectMeta, ObjectKey}
use otterscale_operator.Api.Workspace.{Workspace}
use otterscale_operator.Api.Owned.{Kind, Resource, workspaces}
use otterscale_operator.Kube.{Kube, Differ, key_of}
use otterscale_operator.Kube.Laws.{ClientLaws, GenerationLaws, generation_of}
use otterscale_operator.Controller.{live}
use otterscale_operator.Tenant.Reconcile.{reconcile}
use otterscale_operator.Entry.{no_detector}
use otterscale_operator.Entry.Controllers.{
  Predicate, WorkspaceReconciler, generation_changed, istio_crd, setup_workspace_controller,
}
use otterscale_operator.Entry.Quiet.{lets_through, reconcile-unnoticed}
use otterscale_operator.Tests.Store.{Store, put, put-ne, read, same_key}
use otterscale_operator.Tests.Sim.{sim, not_found, WorkspaceStatus-discrete}
use otterscale_operator.Tests.SimLaws.{client_laws}
use otterscale_operator.Tests.Data.{at_cluster, team, team_store}

abbrev rested :
    (k : Kind) → Resource k → ObjectKey → Store → Option (Resource k) → Result (Resource k) × Store
rested k o key s none = (err not_found, s)
rested k o key s (some found) =
    let stored : Resource k = record found { body = o.body } in
    (ok stored, put k key (some stored) s)

abbrev split_status : Kube
split_status = record sim {
  patch_status = λ k base o s. rested k o (key_of o.meta) s (s k (key_of o.meta));
}

rested_ne :
    (k : Kind) (o : Resource k) (key : ObjectKey) (s : Store) (r : Option (Resource k)) (j : Kind)
    (other : ObjectKey)
    → Differ k key j other
    → read j other (rested k o key s r).1 ≡ read j other s
rested_ne k o key s none j other d = refl
rested_ne k o key s (some found) j other d =
    rw (put-ne k key (some (record found { body = o.body })) s j other d, read)

split_status_laws : ClientLaws split_status
split_status_laws = record {
  get_found = client_laws.get_found;
  get_not_found = client_laws.get_not_found;
  lookup_created = client_laws.lookup_created;
  delete_gone = client_laws.delete_gone;
  delete_not_found = client_laws.delete_not_found;
  delete_no_match = client_laws.delete_no_match;
  lookup-delete_ne = client_laws.lookup-delete_ne;
  create_or_update_stored = λ k o f s h.
      let (sent, made, stored, found, keeps) = client_laws.create_or_update_stored k o f s h in
      (
        sent,
        made,
        stored,
        found,
        record {
          labels = keeps.labels;
          owner_references = keeps.owner_references;
          body = keeps.body;
        },
      );
  create_or_update_refused = client_laws.create_or_update_refused;
  create_or_update_unread = client_laws.create_or_update_unread;
  lookup-create_or_update_ne = client_laws.lookup-create_or_update_ne;
  lookup-patch_ne = client_laws.lookup-patch_ne;
  lookup-patch_status_ne = λ k base o s. rested_ne k o (key_of o.meta) s (s k (key_of o.meta));
}

same_key-eq : (a b : ObjectKey) → same_key a b ≡ true → a ≡ b
same_key-eq a b h =
    let spaces : a.namespace ≡ b.namespace = ground (arith, eq_iff a.namespace b.namespace) in
    let names : a.name ≡ b.name = ground (arith, eq_iff a.name b.name) in cc

rested_generation :
    (o : Workspace) (place key : ObjectKey) (s : Store) (r : Option Workspace)
    → s workspaces place ≡ r
    → generation_of (read workspaces key (rested workspaces o place s r).1)
      ≡ generation_of (read workspaces key s)
unfolding put
rested_generation o place key s none e = refl
rested_generation o place key s (some found) e = elim (Bool-cases (same_key place key)) [
  | inl same ↦
      let here : s workspaces key ≡ some found =
        ap (s workspaces) (sym (same_key-eq place key same)) ∙ e in
      rw (same, here, read, rested, put) refl
  | inr other ↦ rw (other, read, rested, put) refl
]

generation_laws : GenerationLaws split_status
generation_laws = record {
  patch_status_generation = λ base o s key _.
      rested_generation o (key_of o.meta) key s (s workspaces (key_of o.meta)) refl;
}

differing : {x y : ℕ} → Dec (x ≡ y) → Bool
differing (yes e) = false
differing (no n) = true

differing_iff : {x y : ℕ} (d : Dec (x ≡ y)) → (differing d ≡ true) ↔ (x ≢ y)
unfolding differing
differing_iff (yes e) = (λ h. cc, λ n. absurd (n e))
differing_iff (no n) = (λ _. n, λ _. refl)

abbrev accepting : Predicate → ObjectMeta → ObjectMeta → Bool
accepting generation_changed a b = differing (ℕ_discrete a.generation b.generation)
accepting istio_crd a b = true

abbrev team_reconciler : WorkspaceReconciler
team_reconciler = record { version = "v1"; recorder = live; istio_detector = no_detector }

abbrev rested_store : Store
unfolding reconcile put
rested_store =
    (reconcile split_status live "v1" true true (at_cluster "team")
      (record { cluster = team_store; events = [] })).1.cluster

abbrev team_after : Workspace
unfolding put reconcile
team_after = elim (read workspaces (at_cluster "team") rested_store) [ none ↦ team | some w ↦ w ]

team_found : read workspaces (at_cluster "team") team_store ≡ some team
unfolding put
team_found = refl

team_after_found : read workspaces (at_cluster "team") rested_store ≡ some team_after
unfolding put reconcile reconcile_namespace mutate_namespace reconcile_role_bindings
    reconcile_resource_quota reconcile_limit_range reconcile_network_isolation decide
    WorkspaceStatus-discrete ℕ_discrete
team_after_found = refl

reconcile-unnoticed_example :
    lets_through accepting (generation_changed ∷ []) team.meta team_after.meta ≡ false
unfolding reconcile rested_store team_after setup_workspace_controller
reconcile-unnoticed_example =
    reconcile-unnoticed split_status split_status_laws generation_laws accepting
      (λ a b. differing_iff (ℕ_discrete a.generation b.generation)) team_reconciler no_detector true
      true (at_cluster "team") (at_cluster "team") (record { cluster = team_store; events = [] })
      team_found team_after_found (Memᴰ.head refl)
