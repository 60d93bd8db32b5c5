-- ===== src/Addons/Status/Ready.antt =====
-- What the Ready condition of a Module says of its Flux object.
use otterscale_operator.Common.{
  arith, subst, String, List, Option, none, some, ◌≡◌, refl, sym, ◌∙◌, ◌↔◌, Bool-cases, inl, inr,
}
use otterscale_operator.Common.Exec.{Result, ok, err}
use otterscale_operator.Api.Meta.{Condition, condition_true, condition_false, Object}
use otterscale_operator.Api.Module.{
  Module, ModuleTemplate, HelmReleaseTemplateSpec, KustomizationTemplateSpec,
}
use otterscale_operator.Api.Owned.{
  helm_releases, kustomizations, HelmReleaseBody, KustomizationBody,
}
use otterscale_operator.Kube.{Kube}
use otterscale_operator.Kube.Laws.{ConditionLaws}
use otterscale_operator.Controller.Sorting.{find-sort_conditions}
use otterscale_operator.Module.{target_namespace, condition_type_ready}
use otterscale_operator.Module.Flux.{flux_key}
use otterscale_operator.Addons.{switch}
use otterscale_operator.Addons.Status.{
  Observation, observe, map_result, observed_condition, observe_flux_resource_status,
  observe_helm_release_status, observe_kustomization_status, new_status,
}

module _ (K : Kube) where
  -- The Ready condition is there, and it is True.
  abbrev pub SaysReady : List Condition → Type 0
  SaysReady cs =
      (c : Condition) × (K.find_status_condition cs condition_type_ready ≡ some c)
      × (c.status ≡ condition_true)

  observe_found :
      (kind : String) (cs : List Condition) (o : Option Condition)
      → K.find_status_condition cs "Ready" ≡ o
      → ((observe K kind (ok cs)).status ≡ condition_true) ↔ SaysReady cs
  unfolding observe
  observe_found kind cs none e = rw e (λ h. ground arith, λ (c, f, t). ground arith)
  observe_found kind cs (some c) e = rw e (λ h. (c, refl, h), λ (d, f, t). ground arith)

  module _ {B : Type 0} (conditions : Object B → List Condition) where
    -- It can be read, and says that it is ready.
    abbrev pub IsReady : Result (Object B) → Type 0
    IsReady reply = (o : Object B) × (reply ≡ ok o) × SaysReady (conditions o)

    observe_iff :
        (kind : String) (reply : Result (Object B))
        → ((observe K kind (map_result conditions reply)).status ≡ condition_true) ↔ IsReady reply
    unfolding observe
    observe_iff kind (ok o) = (
      λ h. (o, refl, (observe_found kind (conditions o) _ refl).0 h),
      λ (p, e, ready).
          (observe_found kind (conditions o) _ refl).1
            (subst (λ (x : Object B). SaysReady (conditions x)) (cc) ready),
    )
    observe_iff kind (err e) = elim (Bool-cases (K.is_not_found e)) [
      | inl missing ↦ rw missing (λ h. ground arith, λ (o, f, ready). ground arith)
      | inr other ↦ rw other (λ h. ground arith, λ (o, f, ready). ground arith)
    ]

module _ (K : Kube) (m : Module) (mt : ModuleTemplate) (s : K.State) where
  -- The Flux object of the Module, of the kind that the template asks for, is ready.
  abbrev pub FluxIsReady :
      Option HelmReleaseTemplateSpec → Option KustomizationTemplateSpec → Type 0
  FluxIsReady (some _) k =
      IsReady K (λ (o : Object HelmReleaseBody). o.body.conditions)
        (K.get helm_releases (flux_key m (target_namespace m mt)) s)
  FluxIsReady none (some _) =
      IsReady K (λ (o : Object KustomizationBody). o.body.conditions)
        (K.get kustomizations (flux_key m (target_namespace m mt)) s)
  FluxIsReady none none = ⊥

  abbrev observation :
      Option HelmReleaseTemplateSpec → Option KustomizationTemplateSpec → Observation
  observation h k =
      switch h k (observe_helm_release_status K m.meta.name (target_namespace m mt) s)
        (observe_kustomization_status K m.meta.name (target_namespace m mt) s)
        (record {
          status = condition_false;
          reason = "TemplateInvalid";
          message = "no flux resource type defined";
        })

  observation_iff :
      (h : Option HelmReleaseTemplateSpec) (k : Option KustomizationTemplateSpec)
      → ((observation h k).status ≡ condition_true) ↔ FluxIsReady h k
  unfolding observe_helm_release_status observe_kustomization_status
  observation_iff (some _) k =
      observe_iff K (λ (o : Object HelmReleaseBody). o.body.conditions) "HelmRelease"
        (K.get helm_releases (flux_key m (target_namespace m mt)) s)
  observation_iff none (some _) =
      observe_iff K (λ (o : Object KustomizationBody). o.body.conditions) "Kustomization"
        (K.get kustomizations (flux_key m (target_namespace m mt)) s)
  observation_iff none none = (λ h. ground arith, λ h. absurd h)

  -- The status that is computed for a Module has a Ready condition, which is about the generation of
  -- the Module, and which is True exactly if the Flux object that the template asks for can be read
  -- and has a Ready condition that is True.
  pub new_status_ready :
      ConditionLaws K
      → (c : Condition) × (K.find_status_condition
            (new_status K m mt s).conditions
            condition_type_ready
          ≡ some c)
        × (c.observed_generation ≡ m.meta.generation)
        × ((c.status ≡ condition_true)
            ↔ FluxIsReady mt.body.spec.helm_release mt.body.spec.kustomization)
  unfolding new_status observe_flux_resource_status
  new_status_ready L =
      let observed =
        observed_condition m (observation mt.body.spec.helm_release mt.body.spec.kustomization) in
      let (c, found, same) = L.find-set_self m.body.status.conditions observed in
      let iff = observation_iff mt.body.spec.helm_release mt.body.spec.kustomization in
      (
        c,
        find-sort_conditions K L (K.set_status_condition m.body.status.conditions observed)
              condition_type_ready
            ∙ found,
        same.observed_generation,
        (λ h. iff.0 (sym same.status ∙ h), λ r. same.status ∙ iff.1 r),
      )
