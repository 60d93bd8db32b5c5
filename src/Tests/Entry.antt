-- ===== src/Tests/Entry.antt =====
-- Starts of the operator: one at which the second check cannot be added, and one in a namespace of
-- its own.
use mathlib.Core.List.{Memᴰ}
use otterscale_operator.Common.{
  String, ◌≡◌, ◌≢◌, ◌↔◌, ◌⊎◌, refl, true, false, [], inl, inr, eq_iff, arith, ◌==◌, if◌then◌else◌,
}
use otterscale_operator.Common.Exec.{ok, err, Result, foreign, nil_dereference, template_not_found}
use otterscale_operator.Api.Workspace.{Workspace}
use otterscale_operator.Api.Owned.{IsIstio, helm_releases, kustomizations, peer_authentications}
use otterscale_operator.Controller.{live, absent}
use otterscale_operator.Tenant.Managed.{Managed}
use otterscale_operator.Webhook.{AdmissionRequest, validate_update, validate_delete}
use otterscale_operator.Addons.{fetch_module_template, reconcile_resources}
use otterscale_operator.Addons.Reconcile.{reconcile}
use otterscale_operator.Addons.Reconcile.Laws.{IsSteady, marked}
use otterscale_operator.Entry.Options.{default_flags}
use otterscale_operator.Entry.Controllers.{
  ModuleReconciler, WorkspaceReconciler, Reconciler, Watch, setup_workspace_controller,
  setup_module_controller,
}
use otterscale_operator.Entry.{
  Call, Library, Start, WorkspaceWebhook, Exit, main, no_detector, module_controller,
}
use otterscale_operator.Entry.Wiring.{CalledBy, main-admits_operator, main-unrecorded}
use otterscale_operator.Entry.Watches.{IsSeen, Managed-owns, reconcile_resources-IsSeen}
use otterscale_operator.Tests.Store.{Store, put}
use otterscale_operator.Tests.Sim.{sim}
use otterscale_operator.Tests.SimLaws.{client_laws, ownership_laws}
use otterscale_operator.Tests.Data.{
  at_cluster, team, user, web, podinfo, web_alone, web_store, world,
}

abbrev refuse_readyz : Call → Result (Unit {0})
refuse_readyz (Call.add_readyz_check _) = err (foreign "unable to add the check")
refuse_readyz _ = ok tt

abbrev flaky : Library
flaky = record { State = Unit {0}; call = λ c s. (refuse_readyz c, s) }

abbrev prod : String → String
prod key = if key == "POD_NAMESPACE" then "prod" else ""

abbrev in_prod : Start
in_prod = record {
  getenv = prod;
  version = "v1";
  has_config = true;
  client_made = true;
  response = ok tt;
}

flaky_exits :
    (main flaky sim default_flags in_prod (record { library = tt; calls = [] })).0 ≡ Exit.exited 1
unfolding main
flaky_exits = refl

abbrev prod_hook : WorkspaceWebhook
prod_hook = record {
  operator_sa = "system:serviceaccount:prod:otterscale-operator-controller-manager";
}

prod-called : CalledBy flaky sim default_flags in_prod tt (Call.add_webhook prod_hook)
unfolding main
prod-called = Memᴰ.tail (Memᴰ.tail (Memᴰ.head refl))

prod_is_set : prod "POD_NAMESPACE" ≢ ""
prod_is_set e = ground (arith, eq_iff "prod" "")

main-admits_operator_example :
    let req : Result AdmissionRequest = ok (record {
      user_info = user "system:serviceaccount:prod:otterscale-operator-controller-manager";
    }) in
    ((old new : Workspace) → validate_update prod_hook.operator_sa req old new ≡ ok tt)
    × ((w : Workspace) → validate_delete prod_hook.operator_sa req w ≡ ok tt)
    × (prod "ENABLE_WEBHOOKS" ≢ "false")
main-admits_operator_example =
    main-admits_operator flaky sim default_flags in_prod tt prod_hook "prod"
      "otterscale-operator-controller-manager"
      (user "system:serviceaccount:prod:otterscale-operator-controller-manager") prod-called
      (inl (refl, prod_is_set)) (inr (refl, refl)) refl

module-called : CalledBy flaky sim default_flags in_prod tt (Call.add_controller module_controller)
unfolding main
module-called = Memᴰ.tail (Memᴰ.tail (Memᴰ.tail (Memᴰ.head refl)))

abbrev bare : ModuleReconciler
bare = record { version = ""; recorder = absent }

module-bare : module_controller.reconciler ≡ Reconciler.addon bare
unfolding module_controller
module-bare = refl

alone-steady : IsSteady sim "" (at_cluster "web") web (world web_alone)
unfolding put
alone-steady = (refl, refl, refl)

podinfo-missing : fetch_module_template sim "podinfo" web_alone ≡ err (template_not_found "podinfo")
unfolding fetch_module_template put
podinfo-missing = refl

main-unrecorded_example :
    reconcile sim absent "" (at_cluster "web") (world web_alone)
    ≡ (err nil_dereference, marked sim web (template_not_found "podinfo") (world web_alone))
main-unrecorded_example =
    main-unrecorded flaky sim default_flags in_prod tt module_controller bare (at_cluster "web") web
      (world web_alone) module-called module-bare alone-steady podinfo-missing

abbrev team_reconciler : WorkspaceReconciler
team_reconciler = record { version = "v1"; recorder = live; istio_detector = no_detector }

Managed-owns_example :
    Memᴰ
      (Watch.owns peer_authentications)
      (setup_workspace_controller team_reconciler no_detector).watch_list
    ↔ (IsIstio peer_authentications → false ≡ true)
Managed-owns_example = Managed-owns team_reconciler no_detector team Managed.peer

abbrev web_synced : Store
unfolding reconcile_resources put
web_synced = (reconcile_resources sim web podinfo "v1" web_store).1

web-syncs : reconcile_resources sim web podinfo "v1" web_store ≡ (ok tt, web_synced)
unfolding reconcile_resources put
web-syncs = refl

reconcile_resources-IsSeen_example :
    IsSeen sim web podinfo "v1" helm_releases (setup_module_controller bare) web_synced
    ⊎ IsSeen sim web podinfo "v1" kustomizations (setup_module_controller bare) web_synced
reconcile_resources-IsSeen_example =
    reconcile_resources-IsSeen sim web podinfo "v1" client_laws ownership_laws bare web_store
      web-syncs
