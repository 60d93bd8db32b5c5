-- ===== src/Addons/Reconcile/Success.antt =====
-- What a reconcile of a Module that ends without an error has done.
use otterscale_operator.Common.{String, ◌≡◌, refl, sym, ap, subst, ◌∙◌, ◌⊎◌, inl, inr}
use otterscale_operator.Common.Exec.{Error, template_not_found, template_invalid, Result, ok, err}
use otterscale_operator.Api.Meta.{ObjectKey}
use otterscale_operator.Api.Module.{Module, ModuleTemplate}
use otterscale_operator.Kube.{Kube}
use otterscale_operator.Kube.Laws.{ClientLaws, OwnershipLaws}
use otterscale_operator.Controller.{Recorder, live, absent, World}
use otterscale_operator.Addons.{fetch_module_template, reconcile_resources}
use otterscale_operator.Addons.Laws.{Synced, Synced-of_same, reconcile_resources-FluxHolds}
use otterscale_operator.Addons.Frame.{update_status-Unmoved}
use otterscale_operator.Addons.Status.{update_status}
use otterscale_operator.Addons.Reconcile.{returned_error, handle_reconcile_error, sync, reconcile}
use otterscale_operator.Addons.Reconcile.Laws.{
  IsSteady, IsPermanent, returned, reconcile-steady, reconcile_live-fetched,
  handle_reconcile_error-eq,
}

returned-IsPermanent : (e : Error) → returned (returned_error e) ≡ ok tt → IsPermanent e
returned-IsPermanent (template_not_found n) h = inl (n, refl)
returned-IsPermanent (template_invalid n x) h = inr (n, x, refl)
returned-IsPermanent _ h = cc

module _ (K : Kube) (C : ClientLaws K) (m : Module) (mt : ModuleTemplate) where
  module _ (version : String) where
    -- What ends without an error after a failed sync: not without a recorder, for then the report
    -- of the error panics.
    handled-IsPermanent :
        (recorder : Recorder) (e : Error) (s : World K) {t : World K}
        → handle_reconcile_error K recorder m e s ≡ (ok tt, t)
        → IsPermanent e
    unfolding handle_reconcile_error
    handled-IsPermanent live e s h = returned-IsPermanent e (
        ap (λ (p : Result (Unit {0}) × World K). p.0) (sym (handle_reconcile_error-eq K m e s) ∙ h))
    handled-IsPermanent absent e s h = cc

    sync-Synced :
        (O : OwnershipLaws K) (recorder : Recorder) (s : World K) {t : World K}
        (p : Result (Unit {0}) × K.State)
        → reconcile_resources K m mt version s.cluster ≡ p
        → sync K recorder version m mt s ≡ (ok tt, t)
        → ((e : Error) × (p.0 ≡ err e) × IsPermanent e) ⊎ Synced K m mt version s.cluster t.cluster
    unfolding sync
    sync-Synced O recorder s {t} (ok _, u) synced h =
        let updated = update_status K recorder m mt (record s { cluster = u }) in
        let after : (updated ≡ (ok tt, t)) = rw synced at h in
        inr (
          Synced-of_same K m mt version s.cluster {t = u} {u = t.cluster}
            (λ j other ne.
              subst (λ v. K.lookup j other v.cluster ≡ K.lookup j other u)
                (ap (λ (p : Result (Unit {0}) × World K). p.1) after)
                (update_status-Unmoved K C j other ne recorder m mt (record s { cluster = u })))
            (reconcile_resources-FluxHolds K m mt version C O s.cluster synced))
    sync-Synced O recorder s {t} (err e, u) fails h =
        let handled : (handle_reconcile_error K recorder m e (record s { cluster = u })
            ≡ (ok tt, t)) =
          rw fails at h in
        inl (e, refl, handled-IsPermanent recorder e (record s { cluster = u }) handled)

    -- When the reconcile of a Module that is not deleted and carries the finalizer, and whose template
    -- is fetched, ends without an error, with a recorder or without, then either the cluster holds the
    -- Flux object that the template asks for, with the values and in the namespace of the Module where
    -- it has them, or the sync had failed with an error that a retry cannot mend.
    pub reconcile-Synced_module :
        (O : OwnershipLaws K) (recorder : Recorder) (request : ObjectKey) (s : World K)
        {t : World K}
        → IsSteady K version request m s
        → fetch_module_template K m.body.spec.template_ref s.cluster ≡ ok mt
        → reconcile K recorder version request s ≡ (ok tt, t)
        → ((e : Error) × ((reconcile_resources K m mt version s.cluster).0 ≡ err e) × IsPermanent e)
          ⊎ Synced K m mt version s.cluster t.cluster
    reconcile-Synced_module O recorder request s {t} steady fetched h =
        sync-Synced O recorder s (reconcile_resources K m mt version s.cluster) refl (
          sym (reconcile_live-fetched K version request m s recorder fetched)
          ∙ (sym (reconcile-steady K version request m s recorder steady) ∙ h))
