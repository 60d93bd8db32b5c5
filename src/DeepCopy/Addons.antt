-- ===== src/DeepCopy/Addons.antt =====
-- api/addons/v1alpha1/zz_generated.deepcopy.go
pub mod Laws
use otterscale_operator.Common.Exec.{Exec, pure, ◌>>=◌}
use otterscale_operator.Api.Meta.{ResourceReference}
use otterscale_operator.DeepCopy.Structs.{
  Layout, Pointer, Heap, ModuleSpecStruct, ModuleStatusStruct, ModuleStruct,
  ModuleTemplateSpecStruct, ModuleTemplateStatusStruct, ModuleTemplateStruct,
  HelmReleaseTemplateStruct, KustomizationTemplateStruct, ListStruct,
}
use otterscale_operator.DeepCopy.Memory.{
  copy_pointer, copy_slice, copy_object, RuntimeObject, module_type, module_list_type,
  module_template_type, module_template_list_type,
}
use otterscale_operator.DeepCopy.Externals.{Externals}
use otterscale_operator.DeepCopy.Stored.{
  stored_text, stored_reference, stored_module_spec, stored_module_status, stored_template_spec,
  stored_template_status, stored_module_object, stored_template, stored_list, stored_helm_release,
  stored_kustomization, stored_condition, stored_json,
}

module _ {F : Layout} where
  unfoldable pub addons_reference_deep_copy_into :
      ResourceReference → Exec (Heap F) ResourceReference
  addons_reference_deep_copy_into v = pure v

  unfoldable pub addons_reference_deep_copy : Pointer → Exec (Heap F) Pointer
  unfolding copy_pointer addons_reference_deep_copy_into
  addons_reference_deep_copy = copy_pointer stored_reference addons_reference_deep_copy_into

module _ {F : Layout} (E : Externals F) where
  unfoldable pub helm_release_deep_copy_into :
      HelmReleaseTemplateStruct F → Exec (Heap F) (HelmReleaseTemplateStruct F)
  helm_release_deep_copy_into v = do
    spec ← E.helm_release_spec.deep_copy_into v.spec
    pure (record v { spec = spec })

  unfoldable pub helm_release_deep_copy : Pointer → Exec (Heap F) Pointer
  unfolding copy_pointer helm_release_deep_copy_into
  helm_release_deep_copy = copy_pointer (stored_helm_release E) helm_release_deep_copy_into

  unfoldable pub kustomization_deep_copy_into :
      KustomizationTemplateStruct F → Exec (Heap F) (KustomizationTemplateStruct F)
  kustomization_deep_copy_into v = do
    spec ← E.kustomization_spec.deep_copy_into v.spec
    pure (record v { spec = spec })

  unfoldable pub kustomization_deep_copy : Pointer → Exec (Heap F) Pointer
  unfolding copy_pointer kustomization_deep_copy_into
  kustomization_deep_copy = copy_pointer (stored_kustomization E) kustomization_deep_copy_into

  unfoldable pub module_spec_deep_copy_into : ModuleSpecStruct → Exec (Heap F) ModuleSpecStruct
  unfolding copy_pointer
  module_spec_deep_copy_into v = do
    namespace ← copy_pointer stored_text pure v.namespace
    values ← copy_pointer (stored_json E) E.json.deep_copy_into v.values
    pure (record v { namespace = namespace; values = values })

  unfoldable pub module_spec_deep_copy : Pointer → Exec (Heap F) Pointer
  unfolding copy_pointer module_spec_deep_copy_into
  module_spec_deep_copy = copy_pointer stored_module_spec module_spec_deep_copy_into

  unfoldable pub module_status_deep_copy_into :
      ModuleStatusStruct → Exec (Heap F) ModuleStatusStruct
  unfolding copy_pointer copy_slice
  module_status_deep_copy_into v = do
    helm_release_ref ← copy_pointer stored_reference pure v.helm_release_ref
    kustomization_ref ← copy_pointer stored_reference pure v.kustomization_ref
    conditions ← copy_slice (stored_condition E) E.condition.deep_copy_into v.conditions
    pure (record v {
      helm_release_ref = helm_release_ref;
      kustomization_ref = kustomization_ref;
      conditions = conditions;
    })

  unfoldable pub module_status_deep_copy : Pointer → Exec (Heap F) Pointer
  unfolding copy_pointer module_status_deep_copy_into
  module_status_deep_copy = copy_pointer stored_module_status module_status_deep_copy_into

  unfoldable pub module_deep_copy_into : ModuleStruct F → Exec (Heap F) (ModuleStruct F)
  unfolding module_spec_deep_copy_into module_status_deep_copy_into
  module_deep_copy_into v = do
    object_meta ← E.object_meta.deep_copy_into v.object_meta
    spec ← module_spec_deep_copy_into v.spec
    status ← module_status_deep_copy_into v.status
    pure (record v { object_meta = object_meta; spec = spec; status = status })

  unfoldable pub module_deep_copy : Pointer → Exec (Heap F) Pointer
  unfolding copy_pointer module_deep_copy_into
  module_deep_copy = copy_pointer (stored_module_object E) module_deep_copy_into

  unfoldable pub module_deep_copy_object : Pointer → Exec (Heap F) RuntimeObject
  unfolding module_deep_copy
  module_deep_copy_object p = copy_object module_type (module_deep_copy p)

  unfoldable pub module_list_deep_copy_into : ListStruct F → Exec (Heap F) (ListStruct F)
  unfolding copy_slice module_deep_copy_into
  module_list_deep_copy_into v = do
    list_meta ← E.list_meta.deep_copy_into v.list_meta
    items ← copy_slice (stored_module_object E) module_deep_copy_into v.items
    pure (record v { list_meta = list_meta; items = items })

  unfoldable pub module_list_deep_copy : Pointer → Exec (Heap F) Pointer
  unfolding copy_pointer module_list_deep_copy_into
  module_list_deep_copy = copy_pointer (stored_list E) module_list_deep_copy_into

  unfoldable pub module_list_deep_copy_object : Pointer → Exec (Heap F) RuntimeObject
  unfolding module_list_deep_copy
  module_list_deep_copy_object p = copy_object module_list_type (module_list_deep_copy p)

  unfoldable pub module_template_spec_deep_copy_into :
      ModuleTemplateSpecStruct → Exec (Heap F) ModuleTemplateSpecStruct
  unfolding copy_pointer helm_release_deep_copy_into kustomization_deep_copy_into
  module_template_spec_deep_copy_into v = do
    helm_release ← copy_pointer (stored_helm_release E) helm_release_deep_copy_into v.helm_release
    kustomization ←
        copy_pointer (stored_kustomization E) kustomization_deep_copy_into v.kustomization
    pure (record v { helm_release = helm_release; kustomization = kustomization })

  unfoldable pub module_template_spec_deep_copy : Pointer → Exec (Heap F) Pointer
  unfolding copy_pointer module_template_spec_deep_copy_into
  module_template_spec_deep_copy =
      copy_pointer stored_template_spec module_template_spec_deep_copy_into

  unfoldable pub module_template_status_deep_copy_into :
      ModuleTemplateStatusStruct → Exec (Heap F) ModuleTemplateStatusStruct
  unfolding copy_slice
  module_template_status_deep_copy_into v = do
    conditions ← copy_slice (stored_condition E) E.condition.deep_copy_into v.conditions
    pure (record v { conditions = conditions })

  unfoldable pub module_template_status_deep_copy : Pointer → Exec (Heap F) Pointer
  unfolding copy_pointer module_template_status_deep_copy_into
  module_template_status_deep_copy =
      copy_pointer stored_template_status module_template_status_deep_copy_into

  unfoldable pub module_template_deep_copy_into :
      ModuleTemplateStruct F → Exec (Heap F) (ModuleTemplateStruct F)
  unfolding module_template_spec_deep_copy_into module_template_status_deep_copy_into
  module_template_deep_copy_into v = do
    object_meta ← E.object_meta.deep_copy_into v.object_meta
    spec ← module_template_spec_deep_copy_into v.spec
    status ← module_template_status_deep_copy_into v.status
    pure (record v { object_meta = object_meta; spec = spec; status = status })

  unfoldable pub module_template_deep_copy : Pointer → Exec (Heap F) Pointer
  unfolding copy_pointer module_template_deep_copy_into
  module_template_deep_copy = copy_pointer (stored_template E) module_template_deep_copy_into

  unfoldable pub module_template_deep_copy_object : Pointer → Exec (Heap F) RuntimeObject
  unfolding module_template_deep_copy
  module_template_deep_copy_object p =
      copy_object module_template_type (module_template_deep_copy p)

  unfoldable pub module_template_list_deep_copy_into : ListStruct F → Exec (Heap F) (ListStruct F)
  unfolding copy_slice module_template_deep_copy_into
  module_template_list_deep_copy_into v = do
    list_meta ← E.list_meta.deep_copy_into v.list_meta
    items ← copy_slice (stored_template E) module_template_deep_copy_into v.items
    pure (record v { list_meta = list_meta; items = items })

  unfoldable pub module_template_list_deep_copy : Pointer → Exec (Heap F) Pointer
  unfolding copy_pointer module_template_list_deep_copy_into
  module_template_list_deep_copy = copy_pointer (stored_list E) module_template_list_deep_copy_into

  unfoldable pub module_template_list_deep_copy_object : Pointer → Exec (Heap F) RuntimeObject
  unfolding module_template_list_deep_copy
  module_template_list_deep_copy_object p =
      copy_object module_template_list_type (module_template_list_deep_copy p)
