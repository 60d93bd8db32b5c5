-- ===== src/Tests/Leftovers.antt =====
-- The Module of the small cluster after it was moved to another namespace.
use otterscale_operator.Common.{◌≢◌, some, inr, eq_iff, arith, ap}
use otterscale_operator.Api.Meta.{ObjectKey}
use otterscale_operator.Api.Module.{Module}
use otterscale_operator.Api.Owned.{helm_releases}
use otterscale_operator.Kube.{Differ}
use otterscale_operator.Kube.Sync.{Untouched}
use otterscale_operator.Controller.{live}
use otterscale_operator.Controller.Frame.{Unmoved}
use otterscale_operator.Module.{target_namespace}
use otterscale_operator.Module.Flux.{flux_key}
use otterscale_operator.Addons.Cleanup.{reconcile_delete}
use otterscale_operator.Addons.Reconcile.{sync}
use otterscale_operator.Addons.Leftovers.{recorded, sync-leaves}
use otterscale_operator.Tests.Store.{Store}
use otterscale_operator.Tests.Sim.{sim}
use otterscale_operator.Tests.SimLaws.{client_laws}
use otterscale_operator.Tests.Data.{web, podinfo}

abbrev moved : Module
moved = record web {
  body = record web.body { spec = record web.body.spec { namespace = some "edge" } };
}

abbrev first_release : ObjectKey
first_release = record { namespace = "apps"; name = "web" }

moved_away :
    Differ helm_releases
      (flux_key moved (target_namespace moved podinfo))
      helm_releases
      first_release
unfolding target_namespace
moved_away = inr (λ e.
    let apart = ap (λ (key : ObjectKey). key.namespace) e in ground (arith, eq_iff "edge" "apps"))

edge_is_set : target_namespace moved podinfo ≢ ""
unfolding target_namespace
edge_is_set e = ground (arith, eq_iff "edge" "")

sync-leaves_example :
    Unmoved sim helm_releases first_release (sync sim live "v1" moved podinfo)
    × ((u : Store)
        → Untouched sim helm_releases first_release (
            reconcile_delete sim
              (recorded sim client_laws helm_releases first_release moved podinfo u)))
sync-leaves_example =
    sync-leaves sim client_laws helm_releases first_release moved podinfo moved_away (λ e. cc)
      edge_is_set live "v1"
