-- ===== src/Tenant/Reconcile/Laws.antt =====
-- How a reconcile of a Workspace ends, on each of its paths.
use otterscale_operator.Common.{
  Bool-cases, if◌then◌else◌, String, ◌≡◌, refl, Bool, false, [], ◌∷◌, ◌++◌, Option, none, some, ◌≢◌,
  inl, inr,
}
use otterscale_operator.Common.Exec.{Error, namespace_conflict, Result, ok, err, bind-err}
use otterscale_operator.Api.Meta.{Object, ObjectKey, Condition, condition_false}
use otterscale_operator.Api.Workspace.{Workspace}
use otterscale_operator.Api.Owned.{Kind, namespaces, workspaces}
use otterscale_operator.Kube.{Kube, key_of, Differ}
use otterscale_operator.Kube.Laws.{ClientLaws, ErrorLaws, ConditionLaws, SameCondition, CanRead}
use otterscale_operator.Workspace.Helpers.{is_owned}
use otterscale_operator.Workspace.Namespace.{namespace_key, reconcile_namespace}
use otterscale_operator.Workspace.Namespace.Laws.{reconcile_namespace-conflict}
use otterscale_operator.Controller.{Event, Recorder, live, World, error_text}
use otterscale_operator.Tenant.Status.{with_status, not_ready}
use otterscale_operator.Tenant.Reconcile.{
  reconcile_resources, error_reason, returned_error, return_error, handle_reconcile_error,
  reconcile_found, reconcile,
}

abbrev pub warning : (K : Kube) → Error → Event
warning K e = record {
  event_type = "Warning";
  reason = error_reason e;
  action = "Reconcile";
  note = error_text K e;
  args = [];
}

-- What the status patch of an error sends.
abbrev pub failed : (K : Kube) → Workspace → Error → Workspace
failed K w e = with_status w (record w.body.status {
  conditions =
      K.set_status_condition w.body.status.conditions
        (not_ready w (error_reason e) (error_text K e));
  observed_generation = w.meta.generation;
})

abbrev pub returned : Option Error → Result (Unit {0})
returned none = ok tt
returned (some e) = err e

return_error-eq : {S : Type 0} (o : Option Error) (s : S) → return_error o s ≡ (returned o, s)
return_error-eq none s = refl
return_error-eq (some e) s = refl

-- The world after an error was handled.
abbrev pub after_error : (K : Kube) → Workspace → Error → World K → World K
after_error K w e s = record {
  cluster = (K.patch_status workspaces w (failed K w e) s.cluster).1;
  events = s.events ++ (warning K e ∷ []);
}

module _ (K : Kube) (w : Workspace) where
  handle_reconcile_error-eq :
      (e : Error) (s : World K)
      → handle_reconcile_error K live w e s ≡ (returned (returned_error e), after_error K w e s)
  unfolding handle_reconcile_error
  handle_reconcile_error-eq e s = return_error-eq (returned_error e) (after_error K w e s)

  module _ (version : String) (b c : Bool) where
    -- The sync failed.
    pub reconcile_found-error :
        (s : World K) {e : Error} {t : K.State}
        → reconcile_resources K w version b s.cluster ≡ (err e, t)
        → reconcile_found K live version b c w s
          ≡ (returned (returned_error e), after_error K w e (record s { cluster = t }))
    unfolding reconcile_found
    reconcile_found-error s {e} {t} h =
        rw h (handle_reconcile_error-eq e (record s { cluster = t }))

    reconcile_resources-conflict :
        ClientLaws K
        → (ns : Object (Unit {0})) (s : K.State) → CanRead K namespaces (namespace_key w) s
        → K.lookup namespaces (namespace_key w) s ≡ some ns
        → is_owned ns.meta.owner_references w.meta.uid ≡ false
        → reconcile_resources K w version b s ≡ (err (namespace_conflict ns.meta.name), s)
    unfolding reconcile_resources
    reconcile_resources-conflict C ns s readable found foreign =
        bind-err (reconcile_namespace K w version b) _ s
          (reconcile_namespace-conflict K w version b C s ns readable found foreign)

not_conflict-eq :
    (e : Error)
    → ((name : String) → e ≢ namespace_conflict name)
    → (returned_error e ≡ some e) × (error_reason e ≡ "ReconcileError")
not_conflict-eq (namespace_conflict name) h = absurd (h name refl)
not_conflict-eq _ h = (refl, refl)

-- A Workspace that is there and whose namespace exists, can be read and belongs to something else,
-- with a live recorder: the request ends without an
-- error, so that it is not tried again; one warning is recorded, which names the namespace; and no
-- object but the Workspace, whose status is patched, changes.
pub reconcile_conflict :
    (K : Kube) (C : ClientLaws K) (version : String) (b c : Bool) (request : ObjectKey)
    (w : Workspace) (ns : Object (Unit {0})) (s : World K)
    → K.get workspaces request s.cluster ≡ ok w
    → CanRead K namespaces (namespace_key w) s.cluster
    → K.lookup namespaces (namespace_key w) s.cluster ≡ some ns
    → is_owned ns.meta.owner_references w.meta.uid ≡ false
    → (j : Kind) (other : ObjectKey) → Differ workspaces (key_of w.meta) j other
    → let (r, t) = reconcile K live version b c request s in
      (r ≡ ok tt)
      × (t.events ≡ s.events ++ (warning K (namespace_conflict ns.meta.name) ∷ []))
      × (K.lookup j other t.cluster ≡ K.lookup j other s.cluster)
unfolding reconcile
reconcile_conflict K C version b c request w ns s got readable found foreign j other d =
    let end =
      reconcile_found-error K w version b c s
        (reconcile_resources-conflict K w version b c C ns s.cluster readable found foreign) in
    rw (got, end)
      (
        refl,
        refl,
        C.lookup-patch_status_ne workspaces w (failed K w (namespace_conflict ns.meta.name))
            s.cluster j other d,
      )

-- The Ready condition that is sent is False, for the reason and with the text of the error.
abbrev pub SaysNotReady : (K : Kube) → Workspace → String → Error → Workspace → Type 0
SaysNotReady K w reason e sent =
    (found : Condition) × (K.find_status_condition sent.body.status.conditions "Ready" ≡ some found)
    × SameCondition found (record {
      type = "Ready";
      status = condition_false;
      reason = reason;
      message = error_text K e;
      observed_generation = w.meta.generation;
      last_transition_time = none;
    })

failed-SaysNotReady :
    (K : Kube) (L : ConditionLaws K) (w : Workspace) (e : Error) (reason : String)
    → error_reason e ≡ reason
    → SaysNotReady K w reason e (failed K w e)
failed-SaysNotReady K L w e reason same =
    rw (← same)
      (L.find-set_self w.body.status.conditions (not_ready w (error_reason e) (error_text K e)))

-- An error of the sync of a Workspace that is there, other than a namespace conflict, is returned,
-- so that the request is tried again, after, with a live recorder, one warning with the reason
-- ReconcileError and a patch of the status in which the Ready condition is False, with that reason,
-- the text of the error and the generation of the Workspace.
pub reconcile_transient :
    (K : Kube) (L : ConditionLaws K) (version : String) (b c : Bool) (request : ObjectKey)
    (w : Workspace) (s : World K) {e : Error} {t : K.State}
    → K.get workspaces request s.cluster ≡ ok w
    → reconcile_resources K w version b s.cluster ≡ (err e, t)
    → ((name : String) → e ≢ namespace_conflict name)
    → (sent : Workspace) × (reconcile K live version b c request s ≡ (
      err e,
      record {
        cluster = (K.patch_status workspaces w sent t).1;
        events =
            s.events
            ++ (record {
              event_type = "Warning";
              reason = "ReconcileError";
              action = "Reconcile";
              note = error_text K e;
              args = [];
            }
                ∷ []);
      },
    ))
      × SaysNotReady K w "ReconcileError" e sent
unfolding reconcile
reconcile_transient K L version b c request w s {e} {t} got fails not_conflict =
    let (same, reason) = not_conflict-eq e not_conflict in
    (
      failed K w e,
      rw (got, reconcile_found-error K w version b c s fails, same, reason),
      failed-SaysNotReady K L w e "ReconcileError" reason,
    )

-- A Workspace that is not there is done with; another error of the read is returned. Neither
-- changes anything.
pub reconcile_unread :
    (K : Kube) (E : ErrorLaws K) (recorder : Recorder) (version : String) (b c : Bool)
    (request : ObjectKey) (s : World K) {e : Error}
    → K.get workspaces request s.cluster ≡ err e
    → reconcile K recorder version b c request s ≡ (if K.is_not_found e then ok tt else err e, s)
unfolding reconcile
reconcile_unread K E recorder version b c request s {e} got = elim (Bool-cases (K.is_not_found e)) [
  | inl missing ↦ rw (got, E.ignored e missing, missing)
  | inr other ↦ rw (got, E.kept e other, other)
]
