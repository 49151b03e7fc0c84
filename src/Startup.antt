-- ===== src/Startup.antt =====
-- cmd/main.go: the start of the operator. The program is a sequence of calls that may fail; a run is
-- the calls that are made and how the program ends.
pub mod Servers
pub mod Run
use kafka_operator.Prelude.{
  ℕ, String, Bool, true, false, Option, none, some, List, [], ◌∷◌, ◌++◌, Result, is_set,
  if◌then◌else◌,
}
use kafka_operator.Version.{AppInfo, Runtime, app_info_string, new_app_info}

-- the variables that the flags set
pub record Flags : Type 0 where
  pub metrics_addr : String
  pub metrics_cert_path : String
  pub metrics_cert_name : String
  pub metrics_cert_key : String
  pub webhook_cert_path : String
  pub webhook_cert_name : String
  pub webhook_cert_key : String
  pub enable_leader_election : Bool
  pub probe_addr : String
  pub secure_metrics : Bool
  pub enable_http2 : Bool
  pub show_version : Bool

-- their values where the command line has no flag
unfoldable pub default_flags : Flags
default_flags = record {
  metrics_addr = "0";
  metrics_cert_path = "";
  metrics_cert_name = "tls.crt";
  metrics_cert_key = "tls.key";
  webhook_cert_path = "";
  webhook_cert_name = "tls.crt";
  webhook_cert_key = "tls.key";
  enable_leader_election = false;
  probe_addr = ":8081";
  secure_metrics = true;
  enable_http2 = false;
  show_version = false;
}

-- of a server's tls.Config, the field that the program writes
pub record TlsConfig : Type 0 where
  pub next_protos : Option (List String)

unfoldable pub disable_http2 : TlsConfig → TlsConfig
disable_http2 c = record c { next_protos = some ("http/1.1" ∷ []) }

unfoldable pub tls_opts : Flags → List (TlsConfig → TlsConfig)
tls_opts flags = if flags.enable_http2 then [] else disable_http2 ∷ []

-- webhook.Options
pub record WebhookOptions : Type 0 where
  pub tls_opts : List (TlsConfig → TlsConfig)
  pub cert_dir : String
  pub cert_name : String
  pub key_name : String

unfoldable pub webhook_server_options : Flags → WebhookOptions
webhook_server_options flags =
    let options : WebhookOptions = record {
      tls_opts = tls_opts flags;
      cert_dir = "";
      cert_name = "";
      key_name = "";
    } in
    if is_set flags.webhook_cert_path
    then record options {
      cert_dir = flags.webhook_cert_path;
      cert_name = flags.webhook_cert_name;
      key_name = flags.webhook_cert_key;
    }
    else options

-- what protects the metrics endpoint
pub data FilterProvider : Type 0 where
  with_authentication_and_authorization : FilterProvider

-- metricsserver.Options
pub record MetricsOptions : Type 0 where
  pub bind_address : String
  pub secure_serving : Bool
  pub tls_opts : List (TlsConfig → TlsConfig)
  pub filter_provider : Option FilterProvider
  pub cert_dir : String
  pub cert_name : String
  pub key_name : String

unfoldable pub metrics_server_options : Flags → MetricsOptions
metrics_server_options flags =
    let options : MetricsOptions = record {
      bind_address = flags.metrics_addr;
      secure_serving = flags.secure_metrics;
      tls_opts = tls_opts flags;
      filter_provider = none;
      cert_dir = "";
      cert_name = "";
      key_name = "";
    } in
    let filtered =
      if flags.secure_metrics
      then record options { filter_provider = some with_authentication_and_authorization }
      else options in
    if is_set flags.metrics_cert_path
    then record filtered {
      cert_dir = flags.metrics_cert_path;
      cert_name = flags.metrics_cert_name;
      key_name = flags.metrics_cert_key;
    }
    else filtered

-- ctrl.Options, with the webhook server as its options
pub record ManagerOptions : Type 0 where
  pub metrics : MetricsOptions
  pub health_probe_bind_address : String
  pub leader_election : Bool
  pub webhook_server : WebhookOptions
  pub leader_election_id : String

unfoldable pub manager_options : Flags → ManagerOptions
manager_options flags = record {
  metrics = metrics_server_options flags;
  health_probe_bind_address = flags.probe_addr;
  leader_election = flags.enable_leader_election;
  webhook_server = webhook_server_options flags;
  leader_election_id = "6e8ac606.kubedoop.dev";
}

-- the schemes that `init` adds
pub data Scheme : Type 0 where
  client_go kafka listeners : Scheme

-- the calls that matter to the course of the program
pub data Call : Type 0 where
  add_to_scheme : Scheme → Call
  print : String → Call
  get_config : Call
  new_manager : ManagerOptions → Call
  setup_with_manager : Call
  add_healthz_check : Call
  add_readyz_check : Call
  start : Call

-- how a program ends: with an exit code, or by a panic
pub data End : Type 0 where
  exit : ℕ → End
  panicked : End

pub record Trace : Type 0 where
  pub calls : List Call
  pub end : End

-- A call is made, and its error ends the program in the given way.
abbrev pub attempt : (Call → Option String) → Call → End → Trace → Trace
attempt answer call failure rest = elim (answer call) [
  | none ↦ record { calls = call ∷ rest.calls; end = rest.end }
  | some e ↦ record { calls = call ∷ []; end = failure }
]

-- the calls after the flags are parsed, with what each answers: an error or none
unfoldable pub start_manager : (Call → Option String) → Flags → Trace
start_manager answer flags = attempt answer get_config (exit 1) (
    attempt answer (new_manager (manager_options flags)) (exit 1) (
      attempt answer setup_with_manager (exit 1) (
        attempt answer add_healthz_check (exit 1) (
          attempt answer add_readyz_check (exit 1)
            (attempt answer start (exit 1) (record { calls = []; end = exit 0 }))))))

unfoldable pub main : Runtime → (AppInfo → Option String) → (Call → Option String) → Flags → Trace
main runtime marshal answer flags =
    if flags.show_version
    then record {
      calls = print (app_info_string marshal (new_app_info runtime "kafka-operator")) ∷ [];
      end = exit 0;
    }
    else start_manager answer flags

-- `init` and `main`; `Must` panics on an error
unfoldable pub program :
    Runtime → (AppInfo → Option String) → (Call → Option String) → Flags → Trace
program runtime marshal answer flags = attempt answer (add_to_scheme client_go) panicked (
    attempt answer (add_to_scheme kafka) panicked
      (attempt answer (add_to_scheme listeners) panicked (main runtime marshal answer flags)))
