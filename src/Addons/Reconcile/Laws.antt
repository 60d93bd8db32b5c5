-- ===== src/Addons/Reconcile/Laws.antt =====
-- How a reconcile of a Module ends, on each of its paths.
use otterscale_operator.Common.{
  ◌⊎◌, ℕ, String, ◌≡◌, refl, ◌∙◌, true, false, [], ◌∷◌, ◌++◌, Option, none, some,
}
use otterscale_operator.Common.Exec.{
  template_not_found, template_invalid, Error, nil_dereference, Result, ok, err, ◌>>=◌,
}
use otterscale_operator.Api.Meta.{ObjectKey}
use otterscale_operator.Api.Module.{Module, ModuleTemplate}
use otterscale_operator.Api.Owned.{Kind, modules}
use otterscale_operator.Kube.{Kube, key_of, Differ}
use otterscale_operator.Kube.Laws.{ClientLaws}
use otterscale_operator.Workspace.Namespace.{is_zero}
use otterscale_operator.Controller.{Recorder, absent, live, World, on_cluster, error_text}
use otterscale_operator.Module.{module_finalizer}
use otterscale_operator.Addons.{fetch_module_template}
use otterscale_operator.Addons.Status.{with_status, not_ready}
use otterscale_operator.Addons.Cleanup.{reconcile_delete}
use otterscale_operator.Addons.Reconcile.{
  error_reason, returned_error, return_error, warning, handle_reconcile_error, with_finalizer,
  ensure_finalizer, sync, reconcile_live, reconcile_found, reconcile,
}

-- What the status patch of an error sends.
abbrev pub failed : (K : Kube) → Module → Error → Module
failed K m e = with_status m (record m.body.status {
  conditions =
      K.set_status_condition m.body.status.conditions
        (not_ready m (error_reason e) (error_text K e));
  observed_generation = m.meta.generation;
})

abbrev pub returned : Option Error → Result (Unit {0})
returned none = ok tt
returned (some e) = err e

return_error-eq : {S : Type 0} (o : Option Error) (s : S) → return_error o s ≡ (returned o, s)
return_error-eq none s = refl
return_error-eq (some e) s = refl

abbrev pub marked : (K : Kube) → Module → Error → World K → World K
marked K m e s = record s { cluster = (K.patch_status modules m (failed K m e) s.cluster).1 }

-- The world after an error was handled.
abbrev pub after_error : (K : Kube) → Module → Error → World K → World K
after_error K m e s = record {
  cluster = (K.patch_status modules m (failed K m e) s.cluster).1;
  events = s.events ++ (warning K e ∷ []);
}

module _ (K : Kube) (m : Module) (e : Error) (s : World K) where
  pub handle_reconcile_error-eq :
      handle_reconcile_error K live m e s ≡ (returned (returned_error e), after_error K m e s)
  unfolding handle_reconcile_error
  handle_reconcile_error-eq = return_error-eq (returned_error e) (after_error K m e s)

  handle_reconcile_error-absent :
      handle_reconcile_error K absent m e s ≡ (err nil_dereference, marked K m e s)
  unfolding handle_reconcile_error
  handle_reconcile_error-absent = refl

-- An error that a retry cannot mend: the template is missing or invalid.
abbrev pub IsPermanent : Error → Type 0
IsPermanent e =
    ((name : String) × (e ≡ template_not_found name))
    ⊎ ((name : String) × (message : String) × (e ≡ template_invalid name message))

abbrev pub unless_permanent : Error → Result (Unit {0})
unless_permanent (template_not_found _) = ok tt
unless_permanent (template_invalid _ _) = ok tt
unless_permanent e = err e

returned-unless_permanent : (e : Error) → returned (returned_error e) ≡ unless_permanent e
returned-unless_permanent (template_not_found name) = refl
returned-unless_permanent (template_invalid name message) = refl
returned-unless_permanent _ = refl

module _ (K : Kube) (version : String) (request : ObjectKey) (m : Module) (s : World K) where
  -- A live Module that carries the finalizer.
  abbrev pub IsSteady : Type 0
  IsSteady =
      (K.get modules request s.cluster ≡ ok m)
      × (m.meta.deletion_timestamp ≡ none)
      × (K.contains_finalizer m.meta.finalizers module_finalizer ≡ true)

  pub reconcile-steady :
      (recorder : Recorder)
      → IsSteady
      → reconcile K recorder version request s ≡ reconcile_live K recorder version m s
  unfolding reconcile ensure_finalizer
  reconcile-steady recorder (got, lives, carries) = rw (got, lives, carries) refl

  reconcile_live-unfetched :
      (recorder : Recorder) {e : Error}
      → fetch_module_template K m.body.spec.template_ref s.cluster ≡ err e
      → reconcile_live K recorder version m s ≡ handle_reconcile_error K recorder m e s
  unfolding reconcile_live
  reconcile_live-unfetched recorder h = rw h refl

  pub reconcile_live-fetched :
      (recorder : Recorder) {mt : ModuleTemplate}
      → fetch_module_template K m.body.spec.template_ref s.cluster ≡ ok mt
      → reconcile_live K recorder version m s ≡ sync K recorder version m mt s
  unfolding reconcile_live
  reconcile_live-fetched recorder h = rw h refl

  -- A live Module that carries the finalizer and whose template cannot be fetched, with a live
  -- recorder: one warning is recorded, with the reason of the
  -- error, no object but the Module changes, and the error is returned unless it is permanent.
  pub reconcile_unfetched :
      ClientLaws K
      → (j : Kind) (other : ObjectKey) {e : Error} → IsSteady
      → fetch_module_template K m.body.spec.template_ref s.cluster ≡ err e
      → Differ modules (key_of m.meta) j other
      → let (r, t) = reconcile K live version request s in
        (r ≡ unless_permanent e)
        × (t.events ≡ s.events ++ (warning K e ∷ []))
        × (K.lookup j other t.cluster ≡ K.lookup j other s.cluster)
  reconcile_unfetched C j other {e} steady h d =
      rw
        (
          reconcile-steady live steady,
          reconcile_live-unfetched live h,
          handle_reconcile_error-eq K m e s,
        )
        (
          returned-unless_permanent e,
          refl,
          C.lookup-patch_status_ne modules m (failed K m e) s.cluster j other d,
        )

  -- Without a recorder, no error of the fetch of the template ends the work on a live Module that
  -- carries the finalizer, the permanent ones included: the reconcile panics after it patched the status, and no event is recorded.
  pub reconcile_unfetched-absent :
      {e : Error}
      → IsSteady
      → fetch_module_template K m.body.spec.template_ref s.cluster ≡ err e
      → reconcile K absent version request s ≡ (err nil_dereference, marked K m e s)
  reconcile_unfetched-absent {e} steady h =
      reconcile-steady absent steady
      ∙ (reconcile_live-unfetched absent h ∙ handle_reconcile_error-absent K m e s)

  ensure_finalizer-refused :
      (u : K.State) {e : Error} {t : K.State}
      → K.contains_finalizer m.meta.finalizers module_finalizer ≡ false
      → K.patch modules m (with_finalizer K m) u ≡ (err e, t)
      → ensure_finalizer K m u ≡ (err e, t)
  unfolding ensure_finalizer
  ensure_finalizer-refused u lacks refuses = rw (lacks, refuses) refl

  live_path :
      (recorder : Recorder)
      → m.meta.deletion_timestamp ≡ none
      → reconcile_found K recorder version m s
        ≡ (on_cluster K (ensure_finalizer K m) >>= reconcile_live K recorder version) s
  unfolding reconcile_found
  live_path recorder lives =
      let zero : (is_zero m.meta.deletion_timestamp ≡ true) = rw lives refl in rw zero refl

  -- A live Module that does not carry the finalizer: when it cannot be added, the error is returned, and
  -- nothing else is done.
  pub reconcile_finalizer-refused :
      (recorder : Recorder) {e : Error} {t : K.State}
      → K.get modules request s.cluster ≡ ok m
      → m.meta.deletion_timestamp ≡ none
      → K.contains_finalizer m.meta.finalizers module_finalizer ≡ false
      → K.patch modules m (with_finalizer K m) s.cluster ≡ (err e, t)
      → reconcile K recorder version request s ≡ (err e, record s { cluster = t })
  unfolding reconcile
  reconcile_finalizer-refused recorder got lives lacks refuses =
      rw (got, live_path recorder lives, ensure_finalizer-refused s.cluster lacks refuses) refl

  -- A Module that is being deleted is cleaned up, and nothing else is done.
  pub reconcile_deleting :
      (recorder : Recorder) (time : ℕ)
      → K.get modules request s.cluster ≡ ok m
      → m.meta.deletion_timestamp ≡ some time
      → let (r, t) = reconcile_delete K m s.cluster in
        reconcile K recorder version request s ≡ (r, record s { cluster = t })
  unfolding reconcile
  reconcile_deleting recorder time got deleting = rw (got, deleting) refl
