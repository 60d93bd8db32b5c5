-- ===== src/DeepCopy/ExternalLaws.antt =====
-- What is relied on of the deep copies of other packages.
use otterscale_operator.Common.{List}
use otterscale_operator.Api.Meta.{Document, ObjectMeta, Condition}
use otterscale_operator.Api.Module.{HelmReleaseSpec}
use otterscale_operator.DeepCopy.Structs.{Layout, TypeMeta}
use otterscale_operator.DeepCopy.Externals.{Externals}
use otterscale_operator.DeepCopy.Holds.{Holding, Copying}

pub record ListContent (C : Type 0) : Type 0 where
  pub type_meta : TypeMeta
  pub list_meta : Document
  pub items : List C

-- Each struct of another package has a content, of which all that can be written lies in a region, and
-- its method DeepCopyInto is a deep copy.
pub record ExternalLaws {F : Layout} (E : Externals F) : Type 1 where
  pub ObjectMetaHolds : Holding F F.ObjectMeta ObjectMeta
  pub ListMetaHolds : Holding F F.ListMeta Document
  pub ConditionHolds : Holding F F.Condition Condition
  pub JsonHolds : Holding F F.Json Document
  pub QuotaHolds : Holding F F.ResourceQuotaSpec Document
  pub LimitsHolds : Holding F F.LimitRangeSpec Document
  pub HelmReleaseHolds : Holding F F.HelmReleaseSpec HelmReleaseSpec
  pub KustomizationHolds : Holding F F.KustomizationSpec Document
  pub object_meta_copying : Copying ObjectMetaHolds E.object_meta.deep_copy_into
  pub list_meta_copying : Copying ListMetaHolds E.list_meta.deep_copy_into
  pub condition_copying : Copying ConditionHolds E.condition.deep_copy_into
  pub json_copying : Copying JsonHolds E.json.deep_copy_into
  pub quota_copying : Copying QuotaHolds E.resource_quota_spec.deep_copy_into
  pub limits_copying : Copying LimitsHolds E.limit_range_spec.deep_copy_into
  pub helm_release_copying : Copying HelmReleaseHolds E.helm_release_spec.deep_copy_into
  pub kustomization_copying : Copying KustomizationHolds E.kustomization_spec.deep_copy_into
