-- ===== src/Tests/Startup.antt =====
-- Runs and theorems on the start of the operator.
use kafka_operator.Prelude.{
  String, true, Option, none, some, [], ◌∷◌, ◌≡◌, ◌≢◌, ◌↔◌, is_set, if◌then◌else◌,
}
use kafka_operator.Version.{Runtime}
use kafka_operator.Startup.{Call, TlsConfig, default_flags, manager_options, program, start}
use kafka_operator.Startup.Run.{plan, program-eq-trace_of, trace_of}
use kafka_operator.Startup.Servers.{configured, manager_options-servers}

abbrev runtime : Runtime
runtime = record { version = "go1.25"; compiler = "gc"; go_os = "linux"; go_arch = "amd64" }

-- the manager stops with an error
abbrev answer : Call → Option String
answer start = some "leader election lost"
answer _ = none

program-eq-trace_of_example :
    program runtime (λ info. some info.platform) answer default_flags
    ≡ trace_of answer (plan runtime (λ info. some info.platform) default_flags)
program-eq-trace_of_example =
    program-eq-trace_of runtime (λ info. some info.platform) answer default_flags

abbrev plain : TlsConfig
plain = record { next_protos = none }

manager_options-servers_example :
    let metrics = (manager_options default_flags).metrics in
    let webhook = (manager_options default_flags).webhook_server in
    let protos = if default_flags.enable_http2 then plain.next_protos else some ("http/1.1" ∷ []) in
    ((configured metrics.tls_opts plain).next_protos ≡ protos)
    × ((configured webhook.tls_opts plain).next_protos ≡ protos)
    × (metrics.secure_serving ≡ default_flags.secure_metrics)
    × ((metrics.filter_provider ≢ none) ↔ (default_flags.secure_metrics ≡ true))
    × (metrics.cert_dir ≡ default_flags.metrics_cert_path)
    × (metrics.cert_name
        ≡ (if is_set default_flags.metrics_cert_path then default_flags.metrics_cert_name else ""))
    × (metrics.key_name
        ≡ (if is_set default_flags.metrics_cert_path then default_flags.metrics_cert_key else ""))
    × (webhook.cert_dir ≡ default_flags.webhook_cert_path)
    × (webhook.cert_name
        ≡ (if is_set default_flags.webhook_cert_path then default_flags.webhook_cert_name else ""))
    × (webhook.key_name
        ≡ (if is_set default_flags.webhook_cert_path then default_flags.webhook_cert_key else ""))
manager_options-servers_example = manager_options-servers default_flags plain
