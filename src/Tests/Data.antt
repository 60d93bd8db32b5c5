-- ===== src/Tests/Data.antt =====
-- A small cluster: a Workspace with two members, and a Module with its template.
use otterscale_operator.Common.{String, true, none, some, [], ◌∷◌}
use otterscale_operator.Api.Meta.{empty_meta, ObjectMeta, Object, ObjectKey, text}
use otterscale_operator.Api.Workspace.{Workspace, WorkspaceMember, WorkspaceStatus}
use otterscale_operator.Api.Module.{Module, ModuleTemplate}
use otterscale_operator.Api.Owned.{
  workspaces, namespaces, modules, module_templates, helm_releases, HelmReleaseBody,
}
use otterscale_operator.Workspace.Authorization.{UserInfo}
use otterscale_operator.Controller.{World}
use otterscale_operator.Module.{module_finalizer}
use otterscale_operator.Tests.Store.{Store, put}
use otterscale_operator.Tests.Sim.{sim}

abbrev pub at_cluster : String → ObjectKey
at_cluster name = record { namespace = ""; name = name }

abbrev pub stored_meta : String → String → ObjectMeta
stored_meta name uid = record empty_meta {
  name = name;
  uid = uid;
  generation = 2;
  creation_timestamp = some 1;
}

abbrev pub alice : WorkspaceMember
alice = record { role = "admin"; subject = "alice"; name = none }

abbrev pub bob : WorkspaceMember
bob = record { role = "view"; subject = "bob"; name = none }

abbrev pub no_status : WorkspaceStatus
no_status = record {
  observed_generation = 0;
  namespace_ref = none;
  resource_quota_ref = none;
  limit_range_ref = none;
  role_binding_refs = [];
  peer_authentication_ref = none;
  authorization_policy_ref = none;
  network_policy_ref = none;
  conditions = [];
}

abbrev pub team : Workspace
team = record {
  meta = record (stored_meta "team" "u1") {
    labels = some (("user.otterscale.io/carol", "true") ∷ ("tier", "gold") ∷ []);
  };
  body = record {
    spec = record {
      namespace = "team-ns";
      members = alice ∷ bob ∷ [];
      resource_quota = some (text "quota");
      limit_range = none;
      network_isolation = record { enabled = true; allowed_namespaces = "shared" ∷ [] };
    };
    status = no_status;
  };
}

abbrev pub user : String → UserInfo
user name = record { username = name; groups = [] }

abbrev pub empty_store : Store
empty_store k key = none

abbrev pub team_store : Store
team_store = put workspaces (at_cluster "team") (some team) empty_store

-- The namespace is there, and nobody owns it.
abbrev pub foreign_namespace : Object (Unit {0})
foreign_namespace = record { meta = stored_meta "team-ns" "u9"; body = tt }

abbrev pub taken_store : Store
taken_store = put namespaces (at_cluster "team-ns") (some foreign_namespace) team_store

abbrev pub podinfo : ModuleTemplate
podinfo = record {
  meta = stored_meta "podinfo" "u2";
  body = record {
    spec = record {
      description = "";
      namespace = "apps";
      helm_release = some (record { spec = record { values = none; rest = text "chart" } });
      kustomization = none;
    };
    status = record { observed_generation = 0; conditions = [] };
  };
}

-- A Module that carries the finalizer.
abbrev pub web : Module
web = record {
  meta = record (stored_meta "web" "u3") { finalizers = module_finalizer ∷ [] };
  body = record {
    spec = record { template_ref = "podinfo"; namespace = none; values = some (text "replicas") };
    status = record {
      observed_generation = 0;
      template_generation = 0;
      helm_release_ref = some (record { name = "web"; namespace = "apps" });
      kustomization_ref = none;
      conditions = [];
    };
  };
}

abbrev pub web_alone : Store
web_alone = put modules (at_cluster "web") (some web) empty_store

abbrev pub web_store : Store
web_store = put module_templates (at_cluster "podinfo") (some podinfo) web_alone

abbrev pub web_release : Object HelmReleaseBody
web_release = record {
  meta = record (stored_meta "web" "u4") { namespace = "apps" };
  body = record { spec = record { values = none; rest = text "chart" }; conditions = [] };
}

abbrev pub released_store : Store
released_store =
    put helm_releases (record { namespace = "apps"; name = "web" }) (some web_release) web_store

abbrev pub world : Store → World sim
world s = record { cluster = s; events = [] }
