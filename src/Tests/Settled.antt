-- ===== src/Tests/Settled.antt =====
-- The statuses of the small cluster settle.
use otterscale_operator.Common.{◌≡◌, refl, true}
use otterscale_operator.Common.Exec.{ok}
use otterscale_operator.Controller.{live}
use otterscale_operator.Tenant.Status as Tenants
use otterscale_operator.Tenant.Status.Settled.{update_status-settled}
use otterscale_operator.Addons.Status as Modules
use otterscale_operator.Addons.Status.Settled.{update_module_status-settled}
use otterscale_operator.Tests.Sim.{sim}
use otterscale_operator.Tests.SimLaws.{condition_laws, equality_laws}
use otterscale_operator.Tests.Data.{team, team_store, web, podinfo, released_store, world}

update_status-settled_example :
    Tenants.update_status sim live
      (Tenants.with_status team (Tenants.new_status sim team true))
      true
      (world team_store)
    ≡ (ok tt, world team_store)
update_status-settled_example =
    update_status-settled sim condition_laws team true equality_laws live (world team_store)

update_module_status-settled_example :
    Modules.update_status sim live
      (Modules.with_status web (Modules.new_status sim web podinfo released_store))
      podinfo
      (world released_store)
    ≡ (ok tt, world released_store)
update_module_status-settled_example =
    update_module_status-settled sim condition_laws web podinfo (world released_store)
      (world released_store) refl equality_laws live
