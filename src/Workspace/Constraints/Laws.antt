-- ===== src/Workspace/Constraints/Laws.antt =====
-- The quota and the limit range of the namespace are the workspace's, or gone.
use otterscale_operator.Common.{String, ◌≡◌, Option, none, some}
use otterscale_operator.Common.Exec.{ok}
use otterscale_operator.Api.Meta.{Document, null}
use otterscale_operator.Api.Workspace.{Workspace}
use otterscale_operator.Api.Owned.{resource_quotas, limit_ranges}
use otterscale_operator.Kube.{Kube}
use otterscale_operator.Kube.Laws.{ClientLaws, OwnershipLaws, ErrorLaws}
use otterscale_operator.Kube.Sync.{OnlyAt, ignore_not_found-OnlyMissing}
use otterscale_operator.Workspace.Desired.{
  Desired, write_object-Desired, clear_object-Desired, write_object-OnlyAt, clear_object-OnlyAt,
}
use otterscale_operator.Workspace.Constraints.{
  resource_quota_key, limit_range_key, reconcile_quota_spec, reconcile_resource_quota,
  reconcile_limit_spec, reconcile_limit_range,
}

module _ (K : Kube) (C : ClientLaws K) (w : Workspace) (version : String) where
  module _ (O : OwnershipLaws K) (E : ErrorLaws K) (s : K.State) where
    quota_spec-Desired :
        (spec : Option Document) {t : K.State}
        → reconcile_quota_spec K w version spec s ≡ (ok tt, t)
        → Desired K w version resource_quotas (resource_quota_key w) spec t
    unfolding reconcile_quota_spec
    quota_spec-Desired none h =
        clear_object-Desired K C w version resource_quotas (resource_quota_key w) K.ignore_not_found
          (ignore_not_found-OnlyMissing K C E) s h
    quota_spec-Desired (some spec) h =
        write_object-Desired K C w version resource_quotas (resource_quota_key w) O null spec s h

    limit_spec-Desired :
        (spec : Option Document) {t : K.State}
        → reconcile_limit_spec K w version spec s ≡ (ok tt, t)
        → Desired K w version limit_ranges (limit_range_key w) spec t
    unfolding reconcile_limit_spec
    limit_spec-Desired none h =
        clear_object-Desired K C w version limit_ranges (limit_range_key w) K.ignore_not_found
          (ignore_not_found-OnlyMissing K C E) s h
    limit_spec-Desired (some spec) h =
        write_object-Desired K C w version limit_ranges (limit_range_key w) O null spec s h

    pub reconcile_resource_quota-Desired :
        {t : K.State}
        → reconcile_resource_quota K w version s ≡ (ok tt, t)
        → Desired K w version resource_quotas (resource_quota_key w) w.body.spec.resource_quota t
    unfolding reconcile_resource_quota
    reconcile_resource_quota-Desired h = quota_spec-Desired w.body.spec.resource_quota h

    pub reconcile_limit_range-Desired :
        {t : K.State}
        → reconcile_limit_range K w version s ≡ (ok tt, t)
        → Desired K w version limit_ranges (limit_range_key w) w.body.spec.limit_range t
    unfolding reconcile_limit_range
    reconcile_limit_range-Desired h = limit_spec-Desired w.body.spec.limit_range h

  quota_spec-OnlyAt :
      (spec : Option Document)
      → OnlyAt K resource_quotas (resource_quota_key w) (reconcile_quota_spec K w version spec)
  unfolding reconcile_quota_spec
  quota_spec-OnlyAt none =
      clear_object-OnlyAt K C K.ignore_not_found resource_quotas (resource_quota_key w)
  quota_spec-OnlyAt (some spec) =
      write_object-OnlyAt K C w version resource_quotas (resource_quota_key w) null spec

  limit_spec-OnlyAt :
      (spec : Option Document)
      → OnlyAt K limit_ranges (limit_range_key w) (reconcile_limit_spec K w version spec)
  unfolding reconcile_limit_spec
  limit_spec-OnlyAt none =
      clear_object-OnlyAt K C K.ignore_not_found limit_ranges (limit_range_key w)
  limit_spec-OnlyAt (some spec) =
      write_object-OnlyAt K C w version limit_ranges (limit_range_key w) null spec

  pub reconcile_resource_quota-OnlyAt :
      OnlyAt K resource_quotas (resource_quota_key w) (reconcile_resource_quota K w version)
  unfolding reconcile_resource_quota
  reconcile_resource_quota-OnlyAt = quota_spec-OnlyAt w.body.spec.resource_quota

  pub reconcile_limit_range-OnlyAt :
      OnlyAt K limit_ranges (limit_range_key w) (reconcile_limit_range K w version)
  unfolding reconcile_limit_range
  reconcile_limit_range-OnlyAt = limit_spec-OnlyAt w.body.spec.limit_range
