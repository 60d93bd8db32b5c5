-- ===== src/DeepCopy/Stored.antt =====
-- The structs as values in memory.
use otterscale_operator.Common.{String, refl, none, some}
use otterscale_operator.Api.Meta.{ResourceReference}
use otterscale_operator.DeepCopy.Structs.{
  Layout, WorkspaceMemberStruct, NetworkIsolationStruct, WorkspaceSpecStruct, WorkspaceStatusStruct,
  ModuleSpecStruct, ModuleStatusStruct, ModuleTemplateSpecStruct, ModuleTemplateStatusStruct,
  ListStruct, WorkspaceStruct, ModuleStruct, ModuleTemplateStruct, HelmReleaseTemplateStruct,
  KustomizationTemplateStruct, text, reference, member, network_isolation, workspace_spec,
  workspace_status, workspace, module_spec, module_status, module_object, template_spec,
  template_status, template, helm_release, kustomization, list_of, condition, json, quota, limits,
}
use otterscale_operator.DeepCopy.Memory.{Stored}
use otterscale_operator.DeepCopy.Externals.{
  Externals, zero_type_meta, zero_network_isolation, zero_workspace_spec, zero_workspace_status,
  zero_module_spec, zero_module_status, zero_template_spec, zero_template_status, zero_object,
}

module _ {F : Layout} where
  abbrev pub stored_text : Stored F String
  stored_text = record {
    zero_value = "";
    to_value = λ a. text a;
    of_value = λ v. elim v [ text a ↦ some a | _ ↦ none ];
    of_value-to_value = λ a. refl;
  }

  abbrev pub stored_reference : Stored F ResourceReference
  stored_reference = record {
    zero_value = record { name = ""; namespace = "" };
    to_value = λ a. reference a;
    of_value = λ v. elim v [ reference a ↦ some a | _ ↦ none ];
    of_value-to_value = λ a. refl;
  }

  abbrev pub stored_member : Stored F WorkspaceMemberStruct
  stored_member = record {
    zero_value = record { role = ""; subject = ""; name = none };
    to_value = λ a. member a;
    of_value = λ v. elim v [ member a ↦ some a | _ ↦ none ];
    of_value-to_value = λ a. refl;
  }

  abbrev pub stored_network_isolation : Stored F NetworkIsolationStruct
  stored_network_isolation = record {
    zero_value = zero_network_isolation;
    to_value = λ a. network_isolation a;
    of_value = λ v. elim v [ network_isolation a ↦ some a | _ ↦ none ];
    of_value-to_value = λ a. refl;
  }

  abbrev pub stored_workspace_spec : Stored F WorkspaceSpecStruct
  stored_workspace_spec = record {
    zero_value = zero_workspace_spec;
    to_value = λ a. workspace_spec a;
    of_value = λ v. elim v [ workspace_spec a ↦ some a | _ ↦ none ];
    of_value-to_value = λ a. refl;
  }

  abbrev pub stored_workspace_status : Stored F WorkspaceStatusStruct
  stored_workspace_status = record {
    zero_value = zero_workspace_status;
    to_value = λ a. workspace_status a;
    of_value = λ v. elim v [ workspace_status a ↦ some a | _ ↦ none ];
    of_value-to_value = λ a. refl;
  }

  abbrev pub stored_module_spec : Stored F ModuleSpecStruct
  stored_module_spec = record {
    zero_value = zero_module_spec;
    to_value = λ a. module_spec a;
    of_value = λ v. elim v [ module_spec a ↦ some a | _ ↦ none ];
    of_value-to_value = λ a. refl;
  }

  abbrev pub stored_module_status : Stored F ModuleStatusStruct
  stored_module_status = record {
    zero_value = zero_module_status;
    to_value = λ a. module_status a;
    of_value = λ v. elim v [ module_status a ↦ some a | _ ↦ none ];
    of_value-to_value = λ a. refl;
  }

  abbrev pub stored_template_spec : Stored F ModuleTemplateSpecStruct
  stored_template_spec = record {
    zero_value = zero_template_spec;
    to_value = λ a. template_spec a;
    of_value = λ v. elim v [ template_spec a ↦ some a | _ ↦ none ];
    of_value-to_value = λ a. refl;
  }

  abbrev pub stored_template_status : Stored F ModuleTemplateStatusStruct
  stored_template_status = record {
    zero_value = zero_template_status;
    to_value = λ a. template_status a;
    of_value = λ v. elim v [ template_status a ↦ some a | _ ↦ none ];
    of_value-to_value = λ a. refl;
  }

module _ {F : Layout} (E : Externals F) where
  abbrev pub stored_workspace : Stored F (WorkspaceStruct F)
  stored_workspace = record {
    zero_value = zero_object E zero_workspace_spec zero_workspace_status;
    to_value = λ a. workspace a;
    of_value = λ v. elim v [ workspace a ↦ some a | _ ↦ none ];
    of_value-to_value = λ a. refl;
  }

  abbrev pub stored_module_object : Stored F (ModuleStruct F)
  stored_module_object = record {
    zero_value = zero_object E zero_module_spec zero_module_status;
    to_value = λ a. module_object a;
    of_value = λ v. elim v [ module_object a ↦ some a | _ ↦ none ];
    of_value-to_value = λ a. refl;
  }

  abbrev pub stored_template : Stored F (ModuleTemplateStruct F)
  stored_template = record {
    zero_value = zero_object E zero_template_spec zero_template_status;
    to_value = λ a. template a;
    of_value = λ v. elim v [ template a ↦ some a | _ ↦ none ];
    of_value-to_value = λ a. refl;
  }

  abbrev pub stored_list : Stored F (ListStruct F)
  stored_list = record {
    zero_value = record {
      type_meta = zero_type_meta;
      list_meta = E.list_meta.zero_value;
      items = none;
    };
    to_value = λ a. list_of a;
    of_value = λ v. elim v [ list_of a ↦ some a | _ ↦ none ];
    of_value-to_value = λ a. refl;
  }

  abbrev pub stored_helm_release : Stored F (HelmReleaseTemplateStruct F)
  stored_helm_release = record {
    zero_value = record { spec = E.helm_release_spec.zero_value };
    to_value = λ a. helm_release a;
    of_value = λ v. elim v [ helm_release a ↦ some a | _ ↦ none ];
    of_value-to_value = λ a. refl;
  }

  abbrev pub stored_kustomization : Stored F (KustomizationTemplateStruct F)
  stored_kustomization = record {
    zero_value = record { spec = E.kustomization_spec.zero_value };
    to_value = λ a. kustomization a;
    of_value = λ v. elim v [ kustomization a ↦ some a | _ ↦ none ];
    of_value-to_value = λ a. refl;
  }

  abbrev pub stored_condition : Stored F F.Condition
  stored_condition = record {
    zero_value = E.condition.zero_value;
    to_value = λ a. condition a;
    of_value = λ v. elim v [ condition a ↦ some a | _ ↦ none ];
    of_value-to_value = λ a. refl;
  }

  abbrev pub stored_json : Stored F F.Json
  stored_json = record {
    zero_value = E.json.zero_value;
    to_value = λ a. json a;
    of_value = λ v. elim v [ json a ↦ some a | _ ↦ none ];
    of_value-to_value = λ a. refl;
  }

  abbrev pub stored_quota : Stored F F.ResourceQuotaSpec
  stored_quota = record {
    zero_value = E.resource_quota_spec.zero_value;
    to_value = λ a. quota a;
    of_value = λ v. elim v [ quota a ↦ some a | _ ↦ none ];
    of_value-to_value = λ a. refl;
  }

  abbrev pub stored_limits : Stored F F.LimitRangeSpec
  stored_limits = record {
    zero_value = E.limit_range_spec.zero_value;
    to_value = λ a. limits a;
    of_value = λ v. elim v [ limits a ↦ some a | _ ↦ none ];
    of_value-to_value = λ a. refl;
  }
