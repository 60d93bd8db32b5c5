-- ===== src/Tests/Addons.antt =====
-- The theorems on the Module controller at the small cluster.
use mathlib.Core.Bool.{decide}
use mathlib.Core.List.{Memᴰ}
use native.Mathlib.Decide.{ℕ_discrete}
use otterscale_operator.Common.{
  ◌≡◌, String, ◌↔◌, ◌⊎◌, refl, none, some, [], ◌∷◌, inl, eq_iff, arith,
}
use otterscale_operator.Common.Dict.{copy}
use otterscale_operator.Common.Exec.{Error, ok, err, foreign, template_not_found}
use otterscale_operator.Api.Meta.{ObjectKey}
use otterscale_operator.Api.Module.{Module}
use otterscale_operator.Api.Owned.{helm_releases, modules}
use otterscale_operator.Kube.{Kube}
use otterscale_operator.Kube.Laws.{ClientLaws}
use otterscale_operator.Controller.{live, World}
use otterscale_operator.Labels.Bounds.{IsShort}
use otterscale_operator.Module.{labels_for_module}
use otterscale_operator.Module.Bounds.{labels_for_module-IsShort_iff}
use otterscale_operator.Addons.{fetch_module_template, reconcile_resources}
use otterscale_operator.Addons.Laws.{Synced, reconcile_resources-OnlyFlux}
use otterscale_operator.Addons.Cleanup.{
  resolve_cleanup_namespace, delete_flux_resources, reconcile_delete,
}
use otterscale_operator.Addons.Cleanup.Laws.{reconcile_delete-blocked}
use otterscale_operator.Addons.Cleanup.Unrecorded.{reconcile_delete-unrecorded}
use otterscale_operator.Addons.Status.{new_status}
use otterscale_operator.Addons.Status.Laws.{resolve_cleanup_namespace-new_status}
use otterscale_operator.Addons.Reconcile.{reconcile}
use otterscale_operator.Addons.Reconcile.Laws.{IsSteady, IsPermanent}
use otterscale_operator.Addons.Reconcile.Success.{reconcile-Synced_module}
use otterscale_operator.Addons.Watches.{map_flux_resource_to_module, map_module_template_to_modules}
use otterscale_operator.Addons.Watches.Laws.{
  RefersTo, map_flux_resource_to_module-labelled, map_module_template_to_modules_iff,
}
use otterscale_operator.Tests.Store.{Store, put, read}
use otterscale_operator.Tests.Sim.{sim, ModuleStatus-discrete}
use otterscale_operator.Tests.SimLaws.{client_laws, ownership_laws}
use otterscale_operator.Tests.Data.{
  at_cluster, web, podinfo, web_alone, web_store, released_store, world,
}

abbrev apps_web : ObjectKey
apps_web = record { namespace = "apps"; name = "web" }

abbrev reconciled_world : World sim
unfolding reconcile put
reconciled_world = (reconcile sim live "v1" (at_cluster "web") (world web_store)).1

web-reconciles :
    reconcile sim live "v1" (at_cluster "web") (world web_store) ≡ (ok tt, reconciled_world)
unfolding reconcile put decide ModuleStatus-discrete ℕ_discrete
web-reconciles = refl

web-steady : IsSteady sim "v1" (at_cluster "web") web (world web_store)
unfolding put
web-steady = (refl, refl, refl)

podinfo-fetched : fetch_module_template sim "podinfo" web_store ≡ ok podinfo
unfolding fetch_module_template put
podinfo-fetched = refl

reconcile-Synced_module_example :
    ((e : Error) × ((reconcile_resources sim web podinfo "v1" web_store).0 ≡ err e) × IsPermanent e)
    ⊎ Synced sim web podinfo "v1" web_store reconciled_world.cluster
reconcile-Synced_module_example =
    reconcile-Synced_module sim client_laws web podinfo "v1" ownership_laws live (at_cluster "web")
      (world web_store) web-steady podinfo-fetched web-reconciles

alone-steady : IsSteady sim "v1" (at_cluster "web") web (world web_alone)
unfolding put
alone-steady = (refl, refl, refl)

podinfo-missing : fetch_module_template sim "podinfo" web_alone ≡ err (template_not_found "podinfo")
unfolding fetch_module_template put
podinfo-missing = refl

abbrev cleaned_store : Store
unfolding reconcile_delete put
cleaned_store = (reconcile_delete sim web released_store).1

-- A cluster in which no HelmRelease can be deleted and nothing can be patched.
abbrev failing : Kube
failing = record sim {
  delete = λ k key s. (err (foreign "timeout"), s);
  patch = λ k base o s. (err (foreign "conflict"), s);
}

failing_laws : ClientLaws failing
failing_laws = record {
  get_found = client_laws.get_found;
  get_not_found = client_laws.get_not_found;
  lookup_created = client_laws.lookup_created;
  delete_gone = λ k key s h. cc;
  delete_not_found = λ k key s h missing. cc;
  delete_no_match = λ k key s h missing. cc;
  lookup-delete_ne = λ k key s j other d. refl;
  create_or_update_stored = λ k o f s h.
      let (sent, made, stored, found, keeps) = client_laws.create_or_update_stored k o f s h in
      (
        sent,
        made,
        stored,
        found,
        record {
          labels = keeps.labels;
          owner_references = keeps.owner_references;
          body = keeps.body;
        },
      );
  create_or_update_refused = client_laws.create_or_update_refused;
  create_or_update_unread = client_laws.create_or_update_unread;
  lookup-create_or_update_ne = client_laws.lookup-create_or_update_ne;
  lookup-patch_ne = λ k base o s j other d. refl;
  lookup-patch_status_ne = client_laws.lookup-patch_status_ne;
}

web-not_cleaned :
    delete_flux_resources failing web
      (resolve_cleanup_namespace failing web released_store)
      released_store
    ≡ (err (foreign "timeout"), released_store)
unfolding delete_flux_resources resolve_cleanup_namespace
web-not_cleaned = refl

-- After the sync, the Module has asked for another namespace.
abbrev web_moved : Module
web_moved = record web {
  body = record web.body {
    spec = record web.body.spec { namespace = some "elsewhere" };
    status = new_status sim web podinfo web_store;
  };
}

resolve_cleanup_namespace-new_status_example :
    resolve_cleanup_namespace sim web_moved web_alone ≡ "apps"
resolve_cleanup_namespace-new_status_example =
    resolve_cleanup_namespace-new_status sim web web_moved podinfo web_store web_alone tt
      (λ e. ground (arith, eq_iff "apps" "")) refl

reconcile_resources-OnlyFlux_example :
    read modules (at_cluster "web") (reconcile_resources sim web podinfo "v1" web_store).1
    ≡ read modules (at_cluster "web") web_store
reconcile_resources-OnlyFlux_example =
    reconcile_resources-OnlyFlux sim web podinfo "v1" client_laws modules (at_cluster "web")
      (inl (λ e. cc)) (inl (λ e. cc)) web_store

map_flux_resource_to_module-labelled_example :
    map_flux_resource_to_module
      (some (copy (("tier", "gold") ∷ []) (labels_for_module "web" "podinfo" "v1")))
    ≡ at_cluster "web" ∷ []
map_flux_resource_to_module-labelled_example =
    map_flux_resource_to_module-labelled (("tier", "gold") ∷ []) "web" "podinfo" "v1"

labels_for_module-IsShort_iff_example : IsShort (labels_for_module "web" "podinfo" "v1")
labels_for_module-IsShort_iff_example =
    (labels_for_module-IsShort_iff "web" "podinfo" "v1").1 (omega arith, omega arith, omega arith)

-- A name of 64 bytes.
abbrev long_name : String
long_name = "aaaaaaaaaaaaaaaaaaaaaaaaaaaaaaaaaaaaaaaaaaaaaaaaaaaaaaaaaaaaaaaa"

long_template : ¬ IsShort (labels_for_module "web" long_name "v1")
long_template short =
    let bound = ((labels_for_module-IsShort_iff "web" long_name "v1").0 short).1 in omega arith

abbrev listing : Kube
listing = record sim {
  list = λ k s. ok (elim (s k (at_cluster "web")) [ none ↦ [] | some o ↦ o ∷ [] ]);
}

web-listed : listing.list modules web_store ≡ ok (web ∷ [])
unfolding put
web-listed = refl

map_module_template_to_modules_iff_example :
    Memᴰ (at_cluster "web") (map_module_template_to_modules listing "podinfo" web_store)
    ↔ RefersTo "podinfo" (at_cluster "web") (web ∷ [])
map_module_template_to_modules_iff_example =
    map_module_template_to_modules_iff listing "podinfo" web_store (web ∷ []) (at_cluster "web")
      web-listed

reconcile_delete-blocked_example :
    (reconcile_delete failing web released_store ≡ (err (foreign "timeout"), released_store))
    × (read modules (at_cluster "web") released_store
        ≡ read modules (at_cluster "web") released_store)
reconcile_delete-blocked_example =
    reconcile_delete-blocked failing failing_laws web released_store refl web-not_cleaned

-- A Module whose status was never written.
abbrev unrecorded : Module
unrecorded = record web {
  body = record web.body { status = record web.body.status { helm_release_ref = none } };
}

reconcile_delete-unrecorded_example :
    read helm_releases apps_web (reconcile_delete sim unrecorded released_store).1
    ≡ read helm_releases apps_web released_store
reconcile_delete-unrecorded_example =
    reconcile_delete-unrecorded sim unrecorded helm_releases apps_web client_laws refl refl
      (inl (λ e. cc)) released_store
