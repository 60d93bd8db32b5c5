-- ===== src/Tenant/Reconcile/Success.antt =====
-- What a reconcile of a Workspace that ends without an error has done.
use otterscale_operator.Common.{◌⊎◌, String, ◌≡◌, refl, ap, sym, subst, ◌∙◌, Bool, inl, inr}
use otterscale_operator.Common.Exec.{Error, namespace_conflict, Result, ok, err}
use otterscale_operator.Api.Meta.{ObjectKey, entries}
use otterscale_operator.Api.Workspace.{Workspace}
use otterscale_operator.Api.Owned.{namespaces, workspaces}
use otterscale_operator.Kube.{Kube}
use otterscale_operator.Kube.Laws.{ClientLaws, OwnershipLaws, ErrorLaws, current}
use otterscale_operator.Workspace.Namespace.{new_namespace}
use otterscale_operator.Controller.{live, World}
use otterscale_operator.Tenant.Managed.{Synced-of_same, Managed-ne_kind}
use otterscale_operator.Tenant.Frame.{update_status-Unmoved}
use otterscale_operator.Tenant.Sync.{Synced, reconcile_resources-Synced}
use otterscale_operator.Tenant.Status.{update_status}
use otterscale_operator.Tenant.Reconcile.{
  reconcile_resources, returned_error, reconcile_found, reconcile,
}
use otterscale_operator.Tenant.Reconcile.Laws.{returned, reconcile_found-error}

returned-conflict :
    (e : Error)
    → returned (returned_error e) ≡ ok tt
    → (name : String) × (e ≡ namespace_conflict name)
returned-conflict (namespace_conflict name) h = (name, refl)
returned-conflict _ h = cc

module _ (K : Kube) (C : ClientLaws K) (O : OwnershipLaws K) (E : ErrorLaws K) (version : String)
    (b c : Bool) (w : Workspace) where
  found-Synced :
      (s : World K) {t : World K} (p : Result (Unit {0}) × K.State)
      → reconcile_resources K w version b s.cluster ≡ p
      → reconcile_found K live version b c w s ≡ (ok tt, t)
      → ((name : String) × (p.0 ≡ err (namespace_conflict name)))
        ⊎ Synced K C w version b
            (entries (current K namespaces (new_namespace w) s.cluster).meta.labels)
            t.cluster
  unfolding reconcile_found
  found-Synced s {t} (ok _, u) synced h =
      let updated = update_status K live w c (record s { cluster = u }) in
      let after : (updated ≡ (ok tt, t)) = rw synced at h in
      inr (
        Synced-of_same K C w version b {s = u} {t = t.cluster}
          (λ j other m.
            subst (λ v. K.lookup j other v.cluster ≡ K.lookup j other u)
              (ap (λ (p : Result (Unit {0}) × World K). p.1) after)
              (update_status-Unmoved K C j other (Managed-ne_kind w m).0 live w c
                (record s { cluster = u })))
          (reconcile_resources-Synced K C w version b O E s.cluster synced))
  found-Synced s (err e, u) fails h =
      let (name, conflict) = returned-conflict e (
        ap (λ (p : Result (Unit {0}) × World K). p.0)
          (sym (reconcile_found-error K w version b c s fails) ∙ h)) in
      inl (name, ap err conflict)

  -- When the reconcile of a Workspace that is there ends without an error, then either the cluster
  -- holds all that the spec asks for, in the version and for the flag that the sync read, or the
  -- sync had failed because the namespace belongs to something else.
  pub reconcile-Synced :
      (request : ObjectKey) (s : World K) {t : World K}
      → K.get workspaces request s.cluster ≡ ok w
      → reconcile K live version b c request s ≡ (ok tt, t)
      → ((name : String) × ((reconcile_resources K w version b s.cluster).0
            ≡ err (namespace_conflict name)))
        ⊎ Synced K C w version b
            (entries (current K namespaces (new_namespace w) s.cluster).meta.labels)
            t.cluster
  unfolding reconcile
  reconcile-Synced request s got h =
      found-Synced s (reconcile_resources K w version b s.cluster) refl (rw got at h)
