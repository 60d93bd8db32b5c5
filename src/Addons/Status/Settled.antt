-- ===== src/Addons/Status/Settled.antt =====
-- A status of a Module that was written settles: the next one is the same.
use otterscale_operator.Common.{ap, List, ◌∙◌, sym, ◌≡◌, refl, Option, none, some}
use otterscale_operator.Common.Exec.{ok}
use otterscale_operator.Api.Meta.{Condition, ResourceReference}
use otterscale_operator.Api.Module.{
  Module, ModuleTemplate, HelmReleaseTemplateSpec, KustomizationTemplateSpec,
}
use otterscale_operator.Kube.{Kube}
use otterscale_operator.Kube.Laws.{ConditionLaws, EqualityLaws}
use otterscale_operator.Controller.{Recorder, World, sort_conditions}
use otterscale_operator.Controller.Sorting.{sort-set_again}
use otterscale_operator.Module.{target_namespace}
use otterscale_operator.Addons.{switch}
use otterscale_operator.Addons.Status.{
  Observation, new_status, with_status, module_ref, update_status, observed_condition,
  observe_flux_resource_status,
}
use otterscale_operator.Addons.Status.Laws.{update_module_status-quiet}

-- A reference that a valid template sets or clears, and that an invalid one keeps.
switch_again :
    (h : Option HelmReleaseTemplateSpec) (k : Option KustomizationTemplateSpec)
    (a b old : Option ResourceReference)
    → switch h k a b (switch h k a b old) ≡ switch h k a b old
switch_again (some _) k a b old = refl
switch_again none (some _) a b old = refl
switch_again none none a b old = refl

module _ (K : Kube) (L : ConditionLaws K) (m : Module) (mt : ModuleTemplate) (s t : World K)
    (same : observe_flux_resource_status K m mt (target_namespace m mt) t.cluster
      ≡ observe_flux_resource_status K m mt (target_namespace m mt) s.cluster) where
  once : List Condition
  once = (new_status K m mt s.cluster).conditions

  conditions-again :
      sort_conditions (
        K.set_status_condition once (
          observed_condition m
            (observe_flux_resource_status K m mt (target_namespace m mt) t.cluster)))
      ≡ once
  unfolding once new_status
  conditions-again =
      ap
        (λ (o : Observation).
          sort_conditions (K.set_status_condition once (observed_condition m o)))
        same
      ∙ sort-set_again K L m.body.status.conditions (
          observed_condition m
            (observe_flux_resource_status K m mt (target_namespace m mt) s.cluster))

  -- The status that is computed from the Module with the status computed before.
  pub new_module_status-again :
      new_status K (with_status m (new_status K m mt s.cluster)) mt t.cluster
      ≡ new_status K m mt s.cluster
  unfolding new_status once
  new_module_status-again = λ i. record (new_status K m mt s.cluster) {
    helm_release_ref =
        switch_again mt.body.spec.helm_release mt.body.spec.kustomization (some (module_ref m mt))
          none m.body.status.helm_release_ref i;
    kustomization_ref =
        switch_again mt.body.spec.helm_release mt.body.spec.kustomization none
          (some (module_ref m mt)) m.body.status.kustomization_ref i;
    conditions = conditions-again i;
  }

  -- Once the status that a reconcile computes is stored, and as long as the Module and its template
  -- stay and the same is observed of its Flux object, a further update of the status writes nothing
  -- and records no event.
  pub update_module_status-settled :
      EqualityLaws K
      → (recorder : Recorder)
      → update_status K recorder (with_status m (new_status K m mt s.cluster)) mt t ≡ (ok tt, t)
  update_module_status-settled E recorder =
      update_module_status-quiet K E recorder (with_status m (new_status K m mt s.cluster)) mt t
        (sym new_module_status-again)
