-- ===== src/Entry/Options.antt =====
-- cmd/main.go: the flags, and the options of the servers and of the manager that it makes of them.
-- Their types are those of controller-runtime, as far as they are set.
use otterscale_operator.Common.{String, Bool, true, false, not, ◌==◌, List, [], ◌∷◌, if◌then◌else◌}

-- tls.Config: the protocols that are offered, and the versions of TLS that are accepted.
pub record TlsConfig : Type 0 where
  pub next_protos : List String
  pub min_version : String

abbrev pub TlsOption : Type 0
TlsOption = TlsConfig → TlsConfig

pub record Flags : Type 0 where
  pub metrics_addr : String
  pub metrics_cert_path : String
  pub metrics_cert_name : String
  pub metrics_cert_key : String
  pub webhook_cert_path : String
  pub webhook_cert_name : String
  pub webhook_cert_key : String
  pub enable_leader_election : Bool
  pub probe_addr : String
  pub secure_metrics : Bool
  pub enable_http2 : Bool

-- What the flags are when the command line is empty.
abbrev pub default_flags : Flags
default_flags = record {
  metrics_addr = "0";
  metrics_cert_path = "";
  metrics_cert_name = "tls.crt";
  metrics_cert_key = "tls.key";
  webhook_cert_path = "";
  webhook_cert_name = "tls.crt";
  webhook_cert_key = "tls.key";
  enable_leader_election = false;
  probe_addr = ":8081";
  secure_metrics = true;
  enable_http2 = false;
}

abbrev pub disable_http2 : TlsOption
disable_http2 c = record c { next_protos = "http/1.1" ∷ [] }

unfoldable pub tls_opts : Flags → List TlsOption
tls_opts f = if not f.enable_http2 then disable_http2 ∷ [] else []

-- webhook.Options; an empty directory leaves the choice to controller-runtime.
pub record WebhookServerOptions : Type 0 where
  pub tls_opts : List TlsOption
  pub cert_dir : String
  pub cert_name : String
  pub key_name : String

unfoldable pub webhook_server_options : Flags → WebhookServerOptions
unfolding tls_opts
webhook_server_options f =
    let options : WebhookServerOptions = record {
      tls_opts = tls_opts f;
      cert_dir = "";
      cert_name = "";
      key_name = "";
    } in
    if not (f.webhook_cert_path == "")
    then record options {
      cert_dir = f.webhook_cert_path;
      cert_name = f.webhook_cert_name;
      key_name = f.webhook_cert_key;
    }
    else options

-- filters.WithAuthenticationAndAuthorization, or nil.
pub data FilterProvider : Type 0 where
  no_filter with_authentication_and_authorization : FilterProvider

-- metricsserver.Options
pub record MetricsServerOptions : Type 0 where
  pub bind_address : String
  pub secure_serving : Bool
  pub tls_opts : List TlsOption
  pub filter_provider : FilterProvider
  pub cert_dir : String
  pub cert_name : String
  pub key_name : String

unfoldable pub metrics_server_options : Flags → MetricsServerOptions
unfolding tls_opts
metrics_server_options f =
    let options : MetricsServerOptions = record {
      bind_address = f.metrics_addr;
      secure_serving = f.secure_metrics;
      tls_opts = tls_opts f;
      filter_provider =
          if f.secure_metrics then with_authentication_and_authorization else no_filter;
      cert_dir = "";
      cert_name = "";
      key_name = "";
    } in
    if not (f.metrics_cert_path == "")
    then record options {
      cert_dir = f.metrics_cert_path;
      cert_name = f.metrics_cert_name;
      key_name = f.metrics_cert_key;
    }
    else options

-- ctrl.Options
pub record ManagerOptions : Type 0 where
  pub metrics : MetricsServerOptions
  pub webhook_server : WebhookServerOptions
  pub health_probe_bind_address : String
  pub leader_election : Bool
  pub leader_election_id : String

unfoldable pub manager_options : Flags → ManagerOptions
unfolding metrics_server_options webhook_server_options
manager_options f = record {
  metrics = metrics_server_options f;
  webhook_server = webhook_server_options f;
  health_probe_bind_address = f.probe_addr;
  leader_election = f.enable_leader_election;
  leader_election_id = "7fe59df2.otterscale.io";
}
