-- ===== src/Tenant/Tenancy.antt =====
-- Workspaces do not disturb one another: a namespace has one Workspace, and a sync of another
-- Workspace stays out of it.
use otterscale_operator.Common.{
  ◌≡◌, ◌≢◌, refl, sym, ◌∙◌, ap, String, Bool, some, none, inl, inr, Bool-cases, ◌==◌, eq_iff, arith,
}
use otterscale_operator.Common.Dict.{Dict}
use otterscale_operator.Common.Exec.{Error, ok, err, bind-err, namespace_conflict}
use otterscale_operator.Api.Meta.{ObjectKey, Object, OwnerReference, entries}
use otterscale_operator.Api.Workspace.{Workspace}
use otterscale_operator.Api.Owned.{Kind, namespaces, workspaces}
use otterscale_operator.Kube.{Kube, with_controller}
use otterscale_operator.Kube.Laws.{ClientLaws, OwnershipLaws, current}
use otterscale_operator.Kube.Sync.{create_or_update-refused}
use otterscale_operator.Workspace.Helpers.{is_owned}
use otterscale_operator.Workspace.Namespace.{
  namespace_key, namespace_labels, new_namespace, mutate_namespace, reconcile_namespace,
}
use otterscale_operator.Controller.{Recorder, World}
use otterscale_operator.Tenant.Reconcile.{reconcile_resources, reconcile}
use otterscale_operator.Tenant.Sync.{Synced, reconcile_resources-Untouched}
use otterscale_operator.Tenant.Managed.{Managed, Synced-of_same, Managed-Outside, Managed-ne_kind}
use otterscale_operator.Tenant.Frame.{reconcile-unmoved}

module _ (K : Kube) (C : ClientLaws K) (O : OwnershipLaws K) (w : Workspace) (version : String)
    (b : Bool) where
  -- A namespace that another owner controls is refused by the mutate function.
  mutate_namespace-refuses :
      (ns : Object (Unit {0})) (r : OwnerReference)
      → ns.meta.creation_timestamp ≢ none
      → K.get_controller_of ns.meta.owner_references ≡ some r
      → r.name ≢ w.meta.name
      → (e : Error) × (mutate_namespace K w version b ns ≡ err e)
  unfolding mutate_namespace with_controller
  mutate_namespace-refuses ns r created c ne =
      elim (Bool-cases (is_owned ns.meta.owner_references w.meta.uid)) [
        | inl owned ↦
            let labelled = record ns.meta {
              labels = some (namespace_labels w version b (entries ns.meta.labels));
            } in
            let (e, set) = O.exclusive w.meta labelled r c ne in (e, rw (owned, set) refl)
        | inr foreign ↦ (namespace_conflict ns.meta.name, ground arith)
      ]

  -- A sync of a Workspace whose namespace another owner controls fails, and changes nothing.
  pub reconcile_resources-excluded :
      (s : K.State) (ns : Object (Unit {0})) (r : OwnerReference)
      → K.lookup namespaces (namespace_key w) s ≡ some ns
      → K.get_controller_of ns.meta.owner_references ≡ some r
      → r.name ≢ w.meta.name
      → (e : Error) × (reconcile_resources K w version b s ≡ (err e, s))
  unfolding reconcile_resources reconcile_namespace
  reconcile_resources-excluded s ns r found c ne =
      let (d, refuses) =
        mutate_namespace-refuses ns r (C.lookup_created namespaces (namespace_key w) s found) c
          ne in
      let (e, ends) =
        create_or_update-refused K C namespaces (new_namespace w) (mutate_namespace K w version b) s
          {e = d} (rw (found, current) refuses) in
      (e, bind-err (reconcile_namespace K w version b) _ s ends)

-- A Workspace in the cluster: its objects are as its spec asks, in a version and for a flag.
module _ (K : Kube) (C : ClientLaws K) (O : OwnershipLaws K) (v : Workspace) (at_version : String)
    (istio : Bool) (labels : Dict String) where
  sync-unmoved :
      (w : Workspace) (version : String) (b : Bool) (s : K.State) {j : Kind} {other : ObjectKey}
      → v.meta.name ≢ w.meta.name
      → Synced K C v at_version istio labels s
      → Managed v j other
      → K.lookup j other (reconcile_resources K w version b s).1 ≡ K.lookup j other s
  sync-unmoved w version b s {j} {other} ne d m =
      elim (Bool-cases (w.body.spec.namespace == v.body.spec.namespace)) [
        | inl same ↦
            let key : (namespace_key w ≡ namespace_key v) =
              ap (λ (n : String). record { namespace = ""; name = n })
                ((eq_iff w.body.spec.namespace v.body.spec.namespace).0 same) in
            let (r, controls, _, _, name, _) = d.namespace.owned in
            let (e, ends) =
              reconcile_resources-excluded K C O w version b s d.namespace.stored r
                (rw key d.namespace.found) controls (λ e. ne (sym name ∙ e)) in
            rw ends refl
        | inr apart ↦
            reconcile_resources-Untouched K C w version b j other
              (Managed-Outside K C w version b v
                (λ e. cc ((eq_iff w.body.spec.namespace v.body.spec.namespace).1 e)) m)
              s
      ]

  -- A reconcile request that is not for the Workspace `v`, whatever it does and whether it succeeds
  -- or fails, leaves all that belongs to `v` as `v` asks, also when the other Workspace names the
  -- same namespace.
  pub reconcile-Synced_other :
      (recorder : Recorder) (version : String) (b c : Bool) (request : ObjectKey) (s : World K)
      → ((w : Workspace) → K.get workspaces request s.cluster ≡ ok w → v.meta.name ≢ w.meta.name)
      → Synced K C v at_version istio labels s.cluster
      → Synced K C v at_version istio labels (reconcile K recorder version b c request s).1.cluster
  reconcile-Synced_other recorder version b c request s apart d =
      Synced-of_same K C v at_version istio
        (λ j other m.
          reconcile-unmoved K C j other (Managed-ne_kind v m).0 recorder version b c request s
            (λ w got. sync-unmoved w version b s.cluster (apart w got) d m))
        d
