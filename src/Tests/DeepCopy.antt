-- ===== src/Tests/DeepCopy.antt =====
-- The theorems on the deep copies at a Module in a small memory.
use otterscale_operator.Common.{ℕ, ◌≡◌, refl, none, some, List, [], ◌∷◌, arith, inl, inr}
use otterscale_operator.Common.Exec.{ok, pure}
use otterscale_operator.Api.Meta.{
  Document, null, text as text_document, ObjectMeta, empty_meta, Condition, condition_true,
  ResourceReference,
}
use otterscale_operator.Api.Module.{Module, HelmReleaseSpec}
use otterscale_operator.Common.Lists.{get_elem?}
use otterscale_operator.DeepCopy.Structs.{
  Layout, Pointer, Heap, Value, TypeMeta, ModuleStruct, text, module_object, condition, json, other,
  reference,
}
use otterscale_operator.DeepCopy.Memory.{
  Stored, copy_pointer, copy_slice, copy_element, copy_elements, length_at, make, load_at, store_at,
  module_type,
}
use otterscale_operator.DeepCopy.Externals.{Externals, External}
use otterscale_operator.DeepCopy.Stored.{stored_module_object}
use otterscale_operator.DeepCopy.Holds.{Holding, Plain, Points, Extends, Yields, Copying}
use otterscale_operator.DeepCopy.Arrays.{put_other, written}
use otterscale_operator.DeepCopy.Blocks.{plain-Copying, pointer-Copying}
use otterscale_operator.DeepCopy.Addons.{module_deep_copy}
use otterscale_operator.DeepCopy.ExternalLaws.{ExternalLaws}
use otterscale_operator.DeepCopy.Objects.{
  ObjectHolds, HoldsOf, deep_copy, deep_copy_object, deep_copy_object-copies, deep_copy-apart,
}

-- JSON values lie in memory of their own; the other foreign structs are values.
abbrev layout : Layout
layout = record {
  ObjectMeta = ObjectMeta;
  ListMeta = Document;
  Condition = Condition;
  Json = Pointer;
  ResourceQuotaSpec = Document;
  LimitRangeSpec = Document;
  HelmReleaseSpec = HelmReleaseSpec;
  KustomizationSpec = Document;
  Other = Document;
}

abbrev stored_document : Stored layout Document
stored_document = record {
  zero_value = null;
  to_value = λ d. other d;
  of_value = λ v. elim v [ other d ↦ some d | _ ↦ none ];
  of_value-to_value = λ d. refl;
}

abbrev copied_as_value : {A : Type 0} → A → External layout A
copied_as_value a = record { zero_value = a; deep_copy_into = pure }

abbrev externals : Externals layout
externals = record {
  object_meta = copied_as_value empty_meta;
  list_meta = copied_as_value null;
  condition = copied_as_value (record {
    type = "";
    status = condition_true;
    reason = "";
    message = "";
    observed_generation = 0;
    last_transition_time = none;
  });
  json = record { zero_value = none; deep_copy_into = copy_pointer stored_document pure };
  resource_quota_spec = copied_as_value null;
  limit_range_spec = copied_as_value null;
  helm_release_spec = copied_as_value (record { values = none; rest = null });
  kustomization_spec = copied_as_value null;
}

abbrev JsonHolds : Holding layout Pointer Document
JsonHolds lo hi h v d = Points Plain stored_document lo hi h v (some d)

json-Copying : Copying JsonHolds (copy_pointer stored_document pure)
json-Copying =
    let K = pointer-Copying stored_document plain-Copying in
    record {
      local = λ lo hi lo2 hi2 h h2 v d. K.local lo hi lo2 hi2 h h2 v (some d);
      copies = λ lo hi h v d. K.copies lo hi h v (some d);
    }

abbrev external_laws : ExternalLaws externals
external_laws = record {
  ObjectMetaHolds = Plain;
  ListMetaHolds = Plain;
  ConditionHolds = Plain;
  JsonHolds = JsonHolds;
  QuotaHolds = Plain;
  LimitsHolds = Plain;
  HelmReleaseHolds = Plain;
  KustomizationHolds = Plain;
  object_meta_copying = plain-Copying;
  list_meta_copying = plain-Copying;
  condition_copying = plain-Copying;
  json_copying = json-Copying;
  quota_copying = plain-Copying;
  limits_copying = plain-Copying;
  helm_release_copying = plain-Copying;
  kustomization_copying = plain-Copying;
}

abbrev module_meta : ObjectMeta
module_meta = record empty_meta { name = "web"; generation = 2 }

abbrev ready : Condition
ready = record {
  type = "Ready";
  status = condition_true;
  reason = "Ready";
  message = "";
  observed_generation = 2;
  last_transition_time = none;
}

abbrev release : ResourceReference
release = record { name = "web"; namespace = "web-ns" }

abbrev module_type_meta : TypeMeta
module_type_meta = record { kind = "Module"; api_version = "addons.otterscale.io/v1alpha1" }

-- At address 0, with the addresses of what it refers to.
abbrev stored_web : ModuleStruct layout
stored_web = record {
  type_meta = module_type_meta;
  object_meta = module_meta;
  spec = record { template_ref = "podinfo"; namespace = some 1; values = some 2 };
  status = record {
    observed_generation = 2;
    template_generation = 1;
    helm_release_ref = some 4;
    kustomization_ref = none;
    conditions = some 5;
  };
}

abbrev arrays : List (List (Value layout))
arrays =
    (module_object stored_web ∷ [])
    ∷ (text "web-ns" ∷ [])
    ∷ (json (some 3) ∷ [])
    ∷ (other (text_document "replicas: 2") ∷ [])
    ∷ (reference release ∷ [])
    ∷ (condition ready ∷ condition ready ∷ [])
    ∷ []

abbrev memory : Heap layout
memory = record { next = 6; cell = λ q. get_elem? arrays q }

abbrev web : Module
web = record {
  meta = module_meta;
  body = record {
    spec = record {
      template_ref = "podinfo";
      namespace = some "web-ns";
      values = some (text_document "replicas: 2");
    };
    status = record {
      observed_generation = 2;
      template_generation = 1;
      helm_release_ref = some release;
      kustomization_ref = none;
      conditions = ready ∷ ready ∷ [];
    };
  };
}

abbrev WebHolds : ℕ → ℕ → Heap layout → Pointer → Type 0
WebHolds lo hi h p =
    Points (HoldsOf externals external_laws module_type) (stored_module_object externals) lo hi h p
      (some (module_type_meta, web))

memory-WebHolds : WebHolds 0 6 memory (some 0)
memory-WebHolds = (
  omega arith,
  omega arith,
  (
    stored_web,
    refl,
    (
      refl,
      refl,
      (
        refl,
        (omega arith, omega arith, ("web-ns", refl, refl)),
        (
          omega arith,
          omega arith,
          (some 3, refl, (omega arith, omega arith, (text_document "replicas: 2", refl, refl))),
        ),
      ),
      (
        refl,
        refl,
        (omega arith, omega arith, (release, refl, refl)),
        tt,
        (omega arith, omega arith, (ready ∷ ready ∷ [], refl, (refl, (refl, tt)))),
      ),
    ),
  ),
)

deep_copy_object-copies_example :
    Yields (deep_copy_object externals module_type (some 0)) memory (λ o h'.
      Extends memory h'
      × ObjectHolds
          (HoldsOf externals external_laws module_type)
          (stored_module_object externals)
          module_type
          6
          h'.next
          h'
          o
          (some (module_type_meta, web)))
deep_copy_object-copies_example =
    deep_copy_object-copies externals external_laws module_type 0 6 memory (some 0)
      (some (module_type_meta, web)) memory-WebHolds (omega arith)

-- The copy of the Module lies at the first free address, and has taken six arrays.
abbrev after : Heap layout
after = (deep_copy externals module_type (some 0) memory).1

memory_copied : deep_copy externals module_type (some 0) memory ≡ (ok (some 6), after)
unfolding module_deep_copy make load_at store_at copy_pointer copy_slice copy_element copy_elements
    length_at
memory_copied = refl

memory_taken : after.next ≡ 12
unfolding module_deep_copy make load_at store_at copy_pointer copy_slice copy_element copy_elements
    length_at
memory_taken = refl

deep_copy-apart_example :
    WebHolds 0 6 (written after 7 (text "other-ns" ∷ [])) (some 0)
    × WebHolds 6 after.next (written after 1 (text "other-ns" ∷ [])) (some 6)
deep_copy-apart_example =
    deep_copy-apart externals external_laws module_type 0 6 memory after (some 0) (some 6)
      (some (module_type_meta, web)) (written after 7 (text "other-ns" ∷ []))
      (written after 1 (text "other-ns" ∷ [])) memory-WebHolds (omega arith) memory_copied
      (λ q _ u. put_other 7 q _ after.cell (inl (omega arith)))
      (λ q l _. put_other 1 q _ after.cell (inr (omega arith)))
