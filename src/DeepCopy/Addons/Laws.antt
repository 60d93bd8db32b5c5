-- ===== src/DeepCopy/Addons/Laws.antt =====
-- The deep copies of api/addons/v1alpha1 copy: what each struct holds, and that the copy holds it in
-- new memory.
use otterscale_operator.Common.{◌≡◌}
use otterscale_operator.Api.Module.{
  Module, ModuleSpec, ModuleStatus, ModuleTemplate, ModuleTemplateSpec, ModuleTemplateStatus,
  HelmReleaseTemplateSpec, KustomizationTemplateSpec,
}
use otterscale_operator.DeepCopy.Structs.{
  Layout, TypeMeta, ModuleSpecStruct, ModuleStatusStruct, ModuleStruct, ModuleTemplateSpecStruct,
  ModuleTemplateStatusStruct, ModuleTemplateStruct, HelmReleaseTemplateStruct,
  KustomizationTemplateStruct, ListStruct,
}
use otterscale_operator.DeepCopy.Externals.{Externals}
use otterscale_operator.DeepCopy.Stored.{
  stored_helm_release, stored_kustomization, stored_module_object, stored_template,
  stored_condition, stored_json,
}
use otterscale_operator.DeepCopy.Holds.{
  Holding, Points, Slices, TextHolds, ReferenceHolds, Copying, Extends-refl, copy_step, copy_end,
}
use otterscale_operator.DeepCopy.Blocks.{pointer-Copying, text-Copying, reference-Copying}
use otterscale_operator.DeepCopy.Slices.{slice-Copying}
use otterscale_operator.DeepCopy.ExternalLaws.{ExternalLaws, ListContent}
use otterscale_operator.DeepCopy.Addons.{
  helm_release_deep_copy_into, kustomization_deep_copy_into, module_spec_deep_copy_into,
  module_status_deep_copy_into, module_deep_copy_into, module_list_deep_copy_into,
  module_template_spec_deep_copy_into, module_template_status_deep_copy_into,
  module_template_deep_copy_into, module_template_list_deep_copy_into,
}

module _ {F : Layout} (E : Externals F) (L : ExternalLaws E) where
  abbrev pub ModuleSpecHolds : Holding F ModuleSpecStruct ModuleSpec
  ModuleSpecHolds lo hi h v c =
      (v.template_ref ≡ c.template_ref)
      × TextHolds lo hi h v.namespace c.namespace
      × Points L.JsonHolds (stored_json E) lo hi h v.values c.values

  abbrev pub ModuleStatusHolds : Holding F ModuleStatusStruct ModuleStatus
  ModuleStatusHolds lo hi h v c =
      (v.observed_generation ≡ c.observed_generation)
      × (v.template_generation ≡ c.template_generation)
      × ReferenceHolds lo hi h v.helm_release_ref c.helm_release_ref
      × ReferenceHolds lo hi h v.kustomization_ref c.kustomization_ref
      × Slices L.ConditionHolds (stored_condition E) lo hi h v.conditions c.conditions

  abbrev pub ModuleHolds : Holding F (ModuleStruct F) (TypeMeta × Module)
  ModuleHolds lo hi h v (t, c) =
      (v.type_meta ≡ t)
      × L.ObjectMetaHolds lo hi h v.object_meta c.meta
      × ModuleSpecHolds lo hi h v.spec c.body.spec
      × ModuleStatusHolds lo hi h v.status c.body.status

  abbrev pub ModuleListHolds : Holding F (ListStruct F) (ListContent (TypeMeta × Module))
  ModuleListHolds lo hi h v c =
      (v.type_meta ≡ c.type_meta)
      × L.ListMetaHolds lo hi h v.list_meta c.list_meta
      × Slices ModuleHolds (stored_module_object E) lo hi h v.items c.items

  abbrev pub HelmTemplateHolds : Holding F (HelmReleaseTemplateStruct F) HelmReleaseTemplateSpec
  HelmTemplateHolds lo hi h v c = L.HelmReleaseHolds lo hi h v.spec c.spec

  abbrev pub KustomizationTemplateHolds :
      Holding F (KustomizationTemplateStruct F) KustomizationTemplateSpec
  KustomizationTemplateHolds lo hi h v c = L.KustomizationHolds lo hi h v.spec c.spec

  abbrev pub TemplateSpecHolds : Holding F ModuleTemplateSpecStruct ModuleTemplateSpec
  TemplateSpecHolds lo hi h v c =
      (v.description ≡ c.description)
      × (v.namespace ≡ c.namespace)
      × Points HelmTemplateHolds (stored_helm_release E) lo hi h v.helm_release c.helm_release
      × Points KustomizationTemplateHolds (stored_kustomization E) lo hi h v.kustomization
          c.kustomization

  abbrev pub TemplateStatusHolds : Holding F ModuleTemplateStatusStruct ModuleTemplateStatus
  TemplateStatusHolds lo hi h v c =
      (v.observed_generation ≡ c.observed_generation)
      × Slices L.ConditionHolds (stored_condition E) lo hi h v.conditions c.conditions

  abbrev pub TemplateHolds : Holding F (ModuleTemplateStruct F) (TypeMeta × ModuleTemplate)
  TemplateHolds lo hi h v (t, c) =
      (v.type_meta ≡ t)
      × L.ObjectMetaHolds lo hi h v.object_meta c.meta
      × TemplateSpecHolds lo hi h v.spec c.body.spec
      × TemplateStatusHolds lo hi h v.status c.body.status

  abbrev pub TemplateListHolds : Holding F (ListStruct F) (ListContent (TypeMeta × ModuleTemplate))
  TemplateListHolds lo hi h v c =
      (v.type_meta ≡ c.type_meta)
      × L.ListMetaHolds lo hi h v.list_meta c.list_meta
      × Slices TemplateHolds (stored_template E) lo hi h v.items c.items

  pub module_spec-Copying : Copying ModuleSpecHolds (module_spec_deep_copy_into E)
  unfolding module_spec_deep_copy_into
  module_spec-Copying = record {
    local = λ lo hi lo2 hi2 h h2 v c l u e (p0, p1, p2). (
      p0,
      text-Copying.local lo hi lo2 hi2 h h2 _ _ l u e p1,
      (pointer-Copying (stored_json E) L.json_copying).local lo hi lo2 hi2 h h2 _ _ l u e p2,
    );
    copies = λ lo hi h v c (p0, p1, p2) below.
        copy_step text-Copying lo hi h h _ _ p1 below (Extends-refl h) λ b1 h1 e1.
          copy_step (pointer-Copying (stored_json E) L.json_copying) lo hi h h1 _ _ p2 below e1
            λ b2 h2 e2. copy_end _ h2 (λ d2 d1. (p0, d1, d2));
  }

  pub module_status-Copying : Copying ModuleStatusHolds (module_status_deep_copy_into E)
  unfolding module_status_deep_copy_into
  module_status-Copying = record {
    local = λ lo hi lo2 hi2 h h2 v c l u e (p0, p1, p2, p3, p4). (
      p0,
      p1,
      reference-Copying.local lo hi lo2 hi2 h h2 _ _ l u e p2,
      reference-Copying.local lo hi lo2 hi2 h h2 _ _ l u e p3,
      (slice-Copying (stored_condition E) L.condition_copying).local lo hi lo2 hi2 h h2 _ _ l u e
          p4,
    );
    copies = λ lo hi h v c (p0, p1, p2, p3, p4) below.
        copy_step reference-Copying lo hi h h _ _ p2 below (Extends-refl h) λ b1 h1 e1.
          copy_step reference-Copying lo hi h h1 _ _ p3 below e1 λ b2 h2 e2.
            copy_step (slice-Copying (stored_condition E) L.condition_copying) lo hi h h2 _ _ p4
              below e2 λ b3 h3 e3. copy_end _ h3 (λ d3 d2 d1. (p0, p1, d1, d2, d3));
  }

  pub module-Copying : Copying ModuleHolds (module_deep_copy_into E)
  unfolding module_deep_copy_into
  module-Copying = record {
    local = λ lo hi lo2 hi2 h h2 v c l u e (p0, p1, p2, p3). (
      p0,
      L.object_meta_copying.local lo hi lo2 hi2 h h2 _ _ l u e p1,
      module_spec-Copying.local lo hi lo2 hi2 h h2 _ _ l u e p2,
      module_status-Copying.local lo hi lo2 hi2 h h2 _ _ l u e p3,
    );
    copies = λ lo hi h v c (p0, p1, p2, p3) below.
        copy_step L.object_meta_copying lo hi h h _ _ p1 below (Extends-refl h) λ b1 h1 e1.
          copy_step module_spec-Copying lo hi h h1 _ _ p2 below e1 λ b2 h2 e2.
            copy_step module_status-Copying lo hi h h2 _ _ p3 below e2
              λ b3 h3 e3. copy_end _ h3 (λ d3 d2 d1. (p0, d1, d2, d3));
  }

  pub module_list-Copying : Copying ModuleListHolds (module_list_deep_copy_into E)
  unfolding module_list_deep_copy_into
  module_list-Copying = record {
    local = λ lo hi lo2 hi2 h h2 v c l u e (p0, p1, p2). (
      p0,
      L.list_meta_copying.local lo hi lo2 hi2 h h2 _ _ l u e p1,
      (slice-Copying (stored_module_object E) module-Copying).local lo hi lo2 hi2 h h2 _ _ l u e p2,
    );
    copies = λ lo hi h v c (p0, p1, p2) below.
        copy_step L.list_meta_copying lo hi h h _ _ p1 below (Extends-refl h) λ b1 h1 e1.
          copy_step (slice-Copying (stored_module_object E) module-Copying) lo hi h h1 _ _ p2 below
            e1 λ b2 h2 e2. copy_end _ h2 (λ d2 d1. (p0, d1, d2));
  }

  pub helm_release-Copying : Copying HelmTemplateHolds (helm_release_deep_copy_into E)
  unfolding helm_release_deep_copy_into
  helm_release-Copying = record {
    local = λ lo hi lo2 hi2 h h2 v c l u e p0.
        L.helm_release_copying.local lo hi lo2 hi2 h h2 _ _ l u e p0;
    copies = λ lo hi h v c p0 below.
        copy_step L.helm_release_copying lo hi h h _ _ p0 below (Extends-refl h)
          λ b1 h1 e1. copy_end _ h1 (λ d1. d1);
  }

  pub kustomization-Copying : Copying KustomizationTemplateHolds (kustomization_deep_copy_into E)
  unfolding kustomization_deep_copy_into
  kustomization-Copying = record {
    local = λ lo hi lo2 hi2 h h2 v c l u e p0.
        L.kustomization_copying.local lo hi lo2 hi2 h h2 _ _ l u e p0;
    copies = λ lo hi h v c p0 below.
        copy_step L.kustomization_copying lo hi h h _ _ p0 below (Extends-refl h)
          λ b1 h1 e1. copy_end _ h1 (λ d1. d1);
  }

  pub module_template_spec-Copying :
      Copying TemplateSpecHolds (module_template_spec_deep_copy_into E)
  unfolding module_template_spec_deep_copy_into
  module_template_spec-Copying = record {
    local = λ lo hi lo2 hi2 h h2 v c l u e (p0, p1, p2, p3). (
      p0,
      p1,
      (pointer-Copying (stored_helm_release E) helm_release-Copying).local lo hi lo2 hi2 h h2 _ _ l
          u e p2,
      (pointer-Copying (stored_kustomization E) kustomization-Copying).local lo hi lo2 hi2 h h2 _ _
          l u e p3,
    );
    copies = λ lo hi h v c (p0, p1, p2, p3) below.
        copy_step (pointer-Copying (stored_helm_release E) helm_release-Copying) lo hi h h _ _ p2
          below (Extends-refl h)
          λ b1 h1 e1.
            copy_step (pointer-Copying (stored_kustomization E) kustomization-Copying) lo hi h h1 _
              _ p3 below e1 λ b2 h2 e2. copy_end _ h2 (λ d2 d1. (p0, p1, d1, d2));
  }

  pub module_template_status-Copying :
      Copying TemplateStatusHolds (module_template_status_deep_copy_into E)
  unfolding module_template_status_deep_copy_into
  module_template_status-Copying = record {
    local = λ lo hi lo2 hi2 h h2 v c l u e (p0, p1). (
      p0,
      (slice-Copying (stored_condition E) L.condition_copying).local lo hi lo2 hi2 h h2 _ _ l u e
          p1,
    );
    copies = λ lo hi h v c (p0, p1) below.
        copy_step (slice-Copying (stored_condition E) L.condition_copying) lo hi h h _ _ p1 below
          (Extends-refl h) λ b1 h1 e1. copy_end _ h1 (λ d1. (p0, d1));
  }

  pub module_template-Copying : Copying TemplateHolds (module_template_deep_copy_into E)
  unfolding module_template_deep_copy_into
  module_template-Copying = record {
    local = λ lo hi lo2 hi2 h h2 v c l u e (p0, p1, p2, p3). (
      p0,
      L.object_meta_copying.local lo hi lo2 hi2 h h2 _ _ l u e p1,
      module_template_spec-Copying.local lo hi lo2 hi2 h h2 _ _ l u e p2,
      module_template_status-Copying.local lo hi lo2 hi2 h h2 _ _ l u e p3,
    );
    copies = λ lo hi h v c (p0, p1, p2, p3) below.
        copy_step L.object_meta_copying lo hi h h _ _ p1 below (Extends-refl h) λ b1 h1 e1.
          copy_step module_template_spec-Copying lo hi h h1 _ _ p2 below e1 λ b2 h2 e2.
            copy_step module_template_status-Copying lo hi h h2 _ _ p3 below e2
              λ b3 h3 e3. copy_end _ h3 (λ d3 d2 d1. (p0, d1, d2, d3));
  }

  pub module_template_list-Copying :
      Copying TemplateListHolds (module_template_list_deep_copy_into E)
  unfolding module_template_list_deep_copy_into
  module_template_list-Copying = record {
    local = λ lo hi lo2 hi2 h h2 v c l u e (p0, p1, p2). (
      p0,
      L.list_meta_copying.local lo hi lo2 hi2 h h2 _ _ l u e p1,
      (slice-Copying (stored_template E) module_template-Copying).local lo hi lo2 hi2 h h2 _ _ l u e
          p2,
    );
    copies = λ lo hi h v c (p0, p1, p2) below.
        copy_step L.list_meta_copying lo hi h h _ _ p1 below (Extends-refl h) λ b1 h1 e1.
          copy_step (slice-Copying (stored_template E) module_template-Copying) lo hi h h1 _ _ p2
            below e1 λ b2 h2 e2. copy_end _ h2 (λ d2 d1. (p0, d1, d2));
  }
