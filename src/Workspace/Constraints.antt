-- ===== src/Workspace/Constraints.antt =====
-- internal/core/workspace/resource_constraints.go
pub mod Laws
use otterscale_operator.Common.{String, Option, none, some}
use otterscale_operator.Common.Exec.{Exec, filter_error}
use otterscale_operator.Api.Meta.{ObjectKey, Object, Document, null}
use otterscale_operator.Api.Workspace.{Workspace}
use otterscale_operator.Api.Owned.{resource_quotas, limit_ranges, named}
use otterscale_operator.Kube.{Kube, with_controller}
use otterscale_operator.Workspace.Helpers.{relabel, resource_quota_name, limit_range_name}

abbrev pub resource_quota_key : Workspace → ObjectKey
resource_quota_key w = record { namespace = w.body.spec.namespace; name = resource_quota_name }

abbrev pub limit_range_key : Workspace → ObjectKey
limit_range_key w = record { namespace = w.body.spec.namespace; name = limit_range_name }

-- `w.Spec.ResourceQuota`, which may be nil.
unfoldable pub reconcile_quota_spec :
    (K : Kube) → Workspace → String → Option Document → Exec K.State (Unit {0})
reconcile_quota_spec K w version none =
    filter_error K.ignore_not_found (K.delete resource_quotas (resource_quota_key w))
reconcile_quota_spec K w version (some spec) =
    K.create_or_update resource_quotas (named (resource_quota_key w) null)
      (λ quota. with_controller K w.meta (relabel w version spec quota))

unfoldable pub reconcile_resource_quota : (K : Kube) → Workspace → String → Exec K.State (Unit {0})
unfolding reconcile_quota_spec
reconcile_resource_quota K w version = reconcile_quota_spec K w version w.body.spec.resource_quota

unfoldable pub reconcile_limit_spec :
    (K : Kube) → Workspace → String → Option Document → Exec K.State (Unit {0})
reconcile_limit_spec K w version none =
    filter_error K.ignore_not_found (K.delete limit_ranges (limit_range_key w))
reconcile_limit_spec K w version (some spec) =
    K.create_or_update limit_ranges (named (limit_range_key w) null)
      (λ limits. with_controller K w.meta (relabel w version spec limits))

unfoldable pub reconcile_limit_range : (K : Kube) → Workspace → String → Exec K.State (Unit {0})
unfolding reconcile_limit_spec
reconcile_limit_range K w version = reconcile_limit_spec K w version w.body.spec.limit_range
