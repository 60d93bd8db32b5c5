-- ===== src/Tests/Progress.antt =====
-- The cleanup of a Module that is deleted, at the small cluster.
use otterscale_operator.Common.{some}
use otterscale_operator.Api.Module.{Module}
use otterscale_operator.Api.Owned.{modules}
use otterscale_operator.Addons.Reconcile.{reconcile as reconcile_module}
use otterscale_operator.Tests.Store.{Store, put}
use otterscale_operator.Tests.Data.{at_cluster, web, released_store}

abbrev web_deleted : Module
web_deleted = record web { meta = record web.meta { deletion_timestamp = some 5 } }

abbrev deleted_store : Store
deleted_store = put modules (at_cluster "web") (some web_deleted) released_store
