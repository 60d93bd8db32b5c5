-- ===== src/Workspace/Namespace/Laws.antt =====
-- `reconcile_namespace` takes over no foreign namespace, and labels its own.
use otterscale_operator.Common.{String, ◌≡◌, ◌∙◌, Bool, true, false, none, some, arith, eq_iff, ◌≢◌}
use otterscale_operator.Common.Dict.{Dict, lookup, lookup-insert, lookup-delete, lookup-copy}
use otterscale_operator.Common.Exec.{ok, err, namespace_conflict}
use otterscale_operator.Api.Meta.{Object, entries}
use otterscale_operator.Api.Workspace.{Workspace}
use otterscale_operator.Api.Owned.{namespaces}
use otterscale_operator.Kube.{Kube, ControlledBy, with_controller}
use otterscale_operator.Labels.{standard}
use otterscale_operator.Workspace.Spec.{place_of_namespace, namespace_label}
use otterscale_operator.Kube.Laws.{ClientLaws, OwnershipLaws, CanRead, current, metadata_name}
use otterscale_operator.Kube.Sync.{OnlyAt, create_or_update-Holds}
use otterscale_operator.Workspace.Helpers.{labels_for_workspace, is_owned}
use otterscale_operator.Workspace.Namespace.{
  istio_injection, namespace_labels, mutate_namespace, namespace_key, new_namespace,
  reconcile_namespace,
}

-- The value of a label that the mutate function leaves on the namespace: the sidecar label follows
-- the flag, the five labels of the operator have the name of the Workspace, "workspace", "otterscale",
-- "otterscale-operator" and the version as their values, and every other label stays.
pub lookup-namespace_labels :
    (w : Workspace) (version : String) (istio_enabled : Bool) (labels : Dict String) (j : String)
    → lookup j (namespace_labels w version istio_enabled labels)
      ≡ namespace_label w version istio_enabled labels j
unfolding namespace_labels labels_for_workspace standard lookup
lookup-namespace_labels w version true labels j = simp lookup-insert (ground arith)
lookup-namespace_labels w version false labels j =
    simp (lookup-delete, lookup-copy)
      (ground (arith, eq_iff istio_injection j, eq_iff j istio_injection))

-- The namespace is there, the Workspace is its controller, and each label but the one that the API
-- server sets has its value.
pub record Labelled (K : Kube) (w : Workspace) (version : String) (istio : Bool)
    (before : Dict String) (s : K.State) : Type 0 where
  pub stored : Object (Unit {0})
  pub found : K.lookup namespaces (place_of_namespace w) s ≡ some stored
  pub labels_eq :
      (key : String)
      → key ≢ metadata_name
      → lookup key (entries stored.meta.labels) ≡ namespace_label w version istio before key
  pub owned : ControlledBy K w.meta stored.meta.owner_references

pub Labelled-of_eq :
    (K : Kube) (w : Workspace) (version : String) (istio : Bool) (before : Dict String)
    {s t : K.State}
    → K.lookup namespaces (place_of_namespace w) t ≡ K.lookup namespaces (place_of_namespace w) s
    → Labelled K w version istio before s
    → Labelled K w version istio before t
Labelled-of_eq K w version istio before e h = record {
  stored = h.stored;
  found = e ∙ h.found;
  labels_eq = h.labels_eq;
  owned = h.owned;
}

abbrev relabelled : Workspace → String → Bool → Object (Unit {0}) → Object (Unit {0})
relabelled w version istio_enabled ns = record ns {
  meta = record ns.meta {
    labels = some (namespace_labels w version istio_enabled (entries ns.meta.labels));
  };
}

module _ (K : Kube) (w : Workspace) (version : String) (istio_enabled : Bool) where
  mutate_namespace-takes :
      (ns sent : Object (Unit {0}))
      → mutate_namespace K w version istio_enabled ns ≡ ok sent
      → with_controller K w.meta (relabelled w version istio_enabled ns) ≡ ok sent
  unfolding mutate_namespace
  mutate_namespace-takes ns sent h = ground arith

  mutate_namespace-owned :
      (ns sent : Object (Unit {0}))
      → ns.meta.creation_timestamp ≢ none
      → mutate_namespace K w version istio_enabled ns ≡ ok sent
      → is_owned ns.meta.owner_references w.meta.uid ≡ true
  unfolding mutate_namespace
  mutate_namespace-owned ns sent created h = ground arith

  mutate_namespace-conflict :
      (ns : Object (Unit {0}))
      → ns.meta.creation_timestamp ≢ none
      → is_owned ns.meta.owner_references w.meta.uid ≡ false
      → mutate_namespace K w version istio_enabled ns ≡ err (namespace_conflict ns.meta.name)
  unfolding mutate_namespace
  mutate_namespace-conflict ns created foreign = ground arith

  module _ (C : ClientLaws K) (s : K.State) where
    -- A namespace that exists and is not owned by the workspace is left alone, with an error that
    -- names it; nothing else is written either.
    pub reconcile_namespace-conflict :
        (ns : Object (Unit {0}))
        → CanRead K namespaces (namespace_key w) s
        → K.lookup namespaces (namespace_key w) s ≡ some ns
        → is_owned ns.meta.owner_references w.meta.uid ≡ false
        → reconcile_namespace K w version istio_enabled s
          ≡ (err (namespace_conflict ns.meta.name), s)
    unfolding reconcile_namespace
    reconcile_namespace-conflict ns readable found foreign =
        C.create_or_update_refused namespaces (new_namespace w)
          (mutate_namespace K w version istio_enabled) s readable
          (rw (found, current)
            (mutate_namespace-conflict ns (C.lookup_created namespaces (namespace_key w) s found)
              foreign))

    -- Success means that a namespace that was there before was owned already.
    pub reconcile_namespace-was_owned :
        (ns : Object (Unit {0})) {t : K.State}
        → reconcile_namespace K w version istio_enabled s ≡ (ok tt, t)
        → K.lookup namespaces (namespace_key w) s ≡ some ns
        → is_owned ns.meta.owner_references w.meta.uid ≡ true
    unfolding reconcile_namespace
    reconcile_namespace-was_owned ns h found =
        let (sent, e, stored, _, _) =
          C.create_or_update_stored namespaces (new_namespace w)
            (mutate_namespace K w version istio_enabled) s h in
        mutate_namespace-owned ns sent (C.lookup_created namespaces (namespace_key w) s found)
          (rw (found, current) at e)

    pub reconcile_namespace-Labelled :
        OwnershipLaws K
        → {t : K.State} → reconcile_namespace K w version istio_enabled s ≡ (ok tt, t)
        → Labelled K w version istio_enabled
            (entries (current K namespaces (new_namespace w) s).meta.labels)
            t
    unfolding reconcile_namespace
    reconcile_namespace-Labelled O h =
        let d =
          create_or_update-Holds K C O w.meta namespaces (new_namespace w)
            (mutate_namespace K w version istio_enabled) (relabelled w version istio_enabled) s
            mutate_namespace-takes h in
        record {
          stored = d.stored;
          found = d.found;
          labels_eq = λ key other.
              d.labels_eq.at_key key other
              ∙ lookup-namespace_labels w version istio_enabled
                  (entries (current K namespaces (new_namespace w) s).meta.labels) key;
          owned = d.owned;
        }

  pub reconcile_namespace-OnlyAt :
      ClientLaws K
      → OnlyAt K namespaces (namespace_key w) (reconcile_namespace K w version istio_enabled)
  unfolding reconcile_namespace
  reconcile_namespace-OnlyAt C s j other =
      C.lookup-create_or_update_ne namespaces (new_namespace w)
        (mutate_namespace K w version istio_enabled) s j other
