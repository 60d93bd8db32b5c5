-- ===== src/Tests/ModuleRuns.antt =====
-- Two Modules of one template, and a Workspace, at the small cluster.
use otterscale_operator.Common.{◌≡◌, ◌≢◌, refl, ap, true, some, none, eq_iff, arith, sym, ◌∙◌, ◌↔◌}
use otterscale_operator.Common.Exec.{Result, ok}
use otterscale_operator.Api.Meta.{Condition, condition_true, Object}
use otterscale_operator.Api.Module.{Module}
use otterscale_operator.Api.Owned.{modules, workspaces}
use otterscale_operator.Kube.Laws.{AnswerLaws}
use otterscale_operator.Controller.{live, World}
use otterscale_operator.Module.{condition_type_ready}
use otterscale_operator.Addons.{reconcile_resources}
use otterscale_operator.Addons.Laws.{Synced, reconcile_resources-FluxHolds}
use otterscale_operator.Addons.Reconcile as Modules
use otterscale_operator.Addons.Status.{new_status}
use otterscale_operator.Addons.Status.Ready.{FluxIsReady, new_status_ready}
use otterscale_operator.Module.Flux.{reconcile_helm_release}
use otterscale_operator.Tenant.Reconcile as Tenants
use otterscale_operator.System.ModuleRuns.{ModuleStep, ModuleRun, Run-Synced_module}
use otterscale_operator.Tests.Store.{Store, put}
use otterscale_operator.Tests.Sim.{sim}
use otterscale_operator.Tests.SimLaws.{client_laws, ownership_laws, condition_laws}
use otterscale_operator.Tests.Data.{
  at_cluster, stored_meta, team, web, podinfo, web_store, released_store, world,
}

new_status_ready_example :
    (c : Condition) × (sim.find_status_condition
        (new_status sim web podinfo released_store).conditions
        condition_type_ready
      ≡ some c)
    × (c.observed_generation ≡ 2)
    × ((c.status ≡ condition_true)
        ↔ FluxIsReady sim web podinfo released_store podinfo.body.spec.helm_release none)
new_status_ready_example = new_status_ready sim web podinfo released_store condition_laws

name_of_answer :
    {B : Type 0} {o answer : Object B} {s t : Store}
    → ◌≡◌ {A = Result (Object B) × Store} (ok o, s) (ok answer, t)
    → answer.meta.name ≡ o.meta.name
name_of_answer {o = o} {answer} e = let same : o ≡ answer = cc in ap (λ x. x.meta.name) (sym same)

answer_laws : AnswerLaws sim
answer_laws = record { patch_name = λ k base o s e. name_of_answer e }

-- Another Module, of the same template.
abbrev db : Module
db = record web { meta = stored_meta "db" "u8" }

abbrev two_modules : Store
two_modules =
    put modules (at_cluster "db") (some db)
      (put workspaces (at_cluster "team") (some team) web_store)

abbrev web_synced : Store
unfolding reconcile_resources put
web_synced = (reconcile_resources sim web podinfo "v1" two_modules).1

web-synced : reconcile_resources sim web podinfo "v1" two_modules ≡ (ok tt, web_synced)
unfolding reconcile_resources put reconcile_helm_release
web-synced = refl

web-Synced : Synced sim web podinfo "v1" two_modules web_synced
web-Synced =
    reconcile_resources-FluxHolds sim web podinfo "v1" client_laws ownership_laws two_modules
      web-synced

db-read : sim.get modules (at_cluster "db") web_synced ≡ ok db
unfolding put reconcile_resources reconcile_helm_release
db-read = refl

ne_of_read :
    {r : Module} (n : Module) → r.meta.name ≡ "db" → ok r ≡ ok n → web.meta.name ≢ n.meta.name
ne_of_read {r} n u e = λ same. ground (arith, eq_iff "web" "db")

db_apart :
    (n : Module) → sim.get modules (at_cluster "db") web_synced ≡ ok n → web.meta.name ≢ n.meta.name
db_apart n got = ne_of_read {r = db} n refl (sym db-read ∙ got)

abbrev after_db : World sim
after_db = (Modules.reconcile sim live "v2" (at_cluster "db") (world web_synced)).1

abbrev after_team : World sim
after_team = (Tenants.reconcile sim live "v2" true true (at_cluster "team") after_db).1

db_then_team : ModuleRun sim web podinfo (world web_synced) after_team
db_then_team =
    ModuleRun.next (ModuleStep.module_request live "v2" (at_cluster "db") db_apart refl) (
      ModuleRun.next (ModuleStep.workspace_request live "v2" true true (at_cluster "team") refl)
        ModuleRun.done)

Run-Synced_module_example : Synced sim web podinfo "v1" two_modules after_team.cluster
Run-Synced_module_example =
    Run-Synced_module sim client_laws answer_laws web podinfo "v1" two_modules db_then_team
      web-Synced
