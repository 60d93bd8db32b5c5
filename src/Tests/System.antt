-- ===== src/Tests/System.antt =====
-- Two Workspaces that name the same namespace, and a Module, at the small cluster.
use otterscale_operator.Common.{◌≡◌, ◌≢◌, refl, String, true, false, some, eq_iff, arith, sym, ◌∙◌}
use otterscale_operator.Common.Dict.{Dict}
use otterscale_operator.Common.Exec.{ok}
use otterscale_operator.Api.Meta.{entries}
use otterscale_operator.Api.Workspace.{Workspace}
use otterscale_operator.Api.Owned.{namespaces, workspaces, modules}
use otterscale_operator.Kube.Laws.{current}
use otterscale_operator.Controller.{live, absent, World}
use otterscale_operator.Workspace.Namespace.{new_namespace, reconcile_namespace, mutate_namespace}
use otterscale_operator.Workspace.RoleBindings.{reconcile_role_bindings}
use otterscale_operator.Workspace.Constraints.{reconcile_resource_quota, reconcile_limit_range}
use otterscale_operator.Workspace.Network.{reconcile_network_isolation}
use otterscale_operator.Tenant.Reconcile.{reconcile_resources}
use otterscale_operator.Tenant.Reconcile as Tenants
use otterscale_operator.Addons.Reconcile as Modules
use otterscale_operator.Tenant.Sync.{Synced, reconcile_resources-Synced}
use otterscale_operator.System.{Step, Run, Run-Synced}
use mathlib.Core.List.{Memᴰ}
use otterscale_operator.Tenant.Access.{BindsExactly, reconcile_resources-Binds}
use otterscale_operator.Tests.Store.{Store, put}
use otterscale_operator.Tests.Sim.{sim}
use otterscale_operator.Tests.SimLaws.{client_laws, ownership_laws, error_laws}
use otterscale_operator.Tests.Data.{at_cluster, stored_meta, team, web, team_store, world}

-- It asks for the namespace of the first one.
abbrev rival : Workspace
rival = record team { meta = stored_meta "rival" "u7" }

abbrev shared_store : Store
shared_store =
    put modules (at_cluster "web") (some web)
      (put workspaces (at_cluster "rival") (some rival) team_store)

abbrev synced_store : Store
unfolding reconcile_resources put
synced_store = (reconcile_resources sim team "v1" true shared_store).1

abbrev labels : Dict String
labels = entries (current sim namespaces (new_namespace team) shared_store).meta.labels

team-synced : reconcile_resources sim team "v1" true shared_store ≡ (ok tt, synced_store)
unfolding reconcile_resources put reconcile_namespace mutate_namespace reconcile_role_bindings
    reconcile_resource_quota reconcile_limit_range reconcile_network_isolation
team-synced = refl

team-Synced : Synced sim client_laws team "v1" true labels synced_store
team-Synced =
    reconcile_resources-Synced sim client_laws team "v1" true ownership_laws error_laws shared_store
      team-synced

rival-read : sim.get workspaces (at_cluster "rival") synced_store ≡ ok rival
unfolding put reconcile_resources reconcile_namespace mutate_namespace reconcile_role_bindings
    reconcile_resource_quota reconcile_limit_range reconcile_network_isolation
rival-read = refl

ne_of_read :
    {r : Workspace} (w : Workspace)
    → r.meta.name ≡ "rival"
    → ok r ≡ ok w
    → team.meta.name ≢ w.meta.name
ne_of_read {r} w u e = λ same. ground (arith, eq_iff "team" "rival")

rival_apart :
    (w : Workspace)
    → sim.get workspaces (at_cluster "rival") synced_store ≡ ok w
    → team.meta.name ≢ w.meta.name
rival_apart w got = ne_of_read {r = rival} w refl (sym rival-read ∙ got)

abbrev after_rival : World sim
after_rival =
    (Tenants.reconcile sim live "v2" false true (at_cluster "rival") (world synced_store)).1

abbrev after_web : World sim
after_web = (Modules.reconcile sim absent "" (at_cluster "web") after_rival).1

rival_then_web : Run sim team (world synced_store) after_web
rival_then_web =
    Run.next (Step.workspace_request live "v2" false true (at_cluster "rival") rival_apart refl)
      (Run.next (Step.module_request absent "" (at_cluster "web") refl) Run.done)

Run-Synced_example : Synced sim client_laws team "v1" true labels after_web.cluster
Run-Synced_example =
    Run-Synced sim client_laws ownership_laws team "v1" true labels rival_then_web team-Synced

reconcile_resources-Binds_example :
    BindsExactly sim client_laws team "v1" (λ body. refl) "view" "bob" synced_store
reconcile_resources-Binds_example =
    reconcile_resources-Binds sim client_laws team "v1" (λ body. refl) ownership_laws error_laws
      true "view" "bob" shared_store (Memᴰ.tail (Memᴰ.tail (Memᴰ.head refl))) team-synced
