-- ===== src/Startup/Servers.antt =====
-- cmd/main.go: the settings of the metrics and the webhook server.
use kafka_operator.Prelude.{
  true, none, some, List, [], ◌∷◌, ◌≡◌, ◌≢◌, ◌↔◌, arith, is_set, refl, ==_iff, Bool-cases, inl, inr,
  if◌then◌else◌,
}
use kafka_operator.Startup.{
  Flags, TlsConfig, disable_http2, manager_options, metrics_server_options, tls_opts,
  webhook_server_options,
}

-- A server's configuration after all its options, each in its turn.
abbrev pub configured : List (TlsConfig → TlsConfig) → TlsConfig → TlsConfig
configured [] c = c
configured (option ∷ options) c = configured options (option c)

metrics-tls_opts : (flags : Flags) → (manager_options flags).metrics.tls_opts ≡ tls_opts flags
unfolding manager_options metrics_server_options
metrics-tls_opts flags = ground arith

webhook-tls_opts :
    (flags : Flags) → (manager_options flags).webhook_server.tls_opts ≡ tls_opts flags
unfolding manager_options webhook_server_options
webhook-tls_opts flags = ground arith

protos :
    (flags : Flags) (c : TlsConfig)
    → (configured (tls_opts flags) c).next_protos
      ≡ (if flags.enable_http2 then c.next_protos else some ("http/1.1" ∷ []))
unfolding tls_opts disable_http2
protos flags c = elim (Bool-cases flags.enable_http2) [
  | inl on ↦ rw on refl
  | inr off ↦ rw off refl
]

-- the rest of the settings
secure :
    (flags : Flags)
    → let metrics = (manager_options flags).metrics in
      let webhook = (manager_options flags).webhook_server in
      (metrics.secure_serving ≡ flags.secure_metrics)
      × ((metrics.filter_provider ≢ none) ↔ (flags.secure_metrics ≡ true))
      × (metrics.cert_dir ≡ flags.metrics_cert_path)
      × (metrics.cert_name
          ≡ (if is_set flags.metrics_cert_path then flags.metrics_cert_name else ""))
      × (metrics.key_name ≡ (if is_set flags.metrics_cert_path then flags.metrics_cert_key else ""))
      × (webhook.cert_dir ≡ flags.webhook_cert_path)
      × (webhook.cert_name
          ≡ (if is_set flags.webhook_cert_path then flags.webhook_cert_name else ""))
      × (webhook.key_name ≡ (if is_set flags.webhook_cert_path then flags.webhook_cert_key else ""))
unfolding manager_options metrics_server_options webhook_server_options is_set
secure flags = ground (arith, ==_iff flags.metrics_cert_path "", ==_iff flags.webhook_cert_path "")

-- Both servers of the manager, whatever TLS configuration they start from: unless HTTP/2 is enabled
-- they offer HTTP/1.1 alone, and with it they keep their protocols. The metrics are protected by
-- authentication and authorization exactly if they are served securely, as the flag says. A
-- certificate's file names are given exactly with its directory.
pub manager_options-servers :
    (flags : Flags) (c : TlsConfig)
    → let metrics = (manager_options flags).metrics in
      let webhook = (manager_options flags).webhook_server in
      let protos = if flags.enable_http2 then c.next_protos else some ("http/1.1" ∷ []) in
      ((configured metrics.tls_opts c).next_protos ≡ protos)
      × ((configured webhook.tls_opts c).next_protos ≡ protos)
      × (metrics.secure_serving ≡ flags.secure_metrics)
      × ((metrics.filter_provider ≢ none) ↔ (flags.secure_metrics ≡ true))
      × (metrics.cert_dir ≡ flags.metrics_cert_path)
      × (metrics.cert_name
          ≡ (if is_set flags.metrics_cert_path then flags.metrics_cert_name else ""))
      × (metrics.key_name ≡ (if is_set flags.metrics_cert_path then flags.metrics_cert_key else ""))
      × (webhook.cert_dir ≡ flags.webhook_cert_path)
      × (webhook.cert_name
          ≡ (if is_set flags.webhook_cert_path then flags.webhook_cert_name else ""))
      × (webhook.key_name ≡ (if is_set flags.webhook_cert_path then flags.webhook_cert_key else ""))
manager_options-servers flags c =
    let (
      serving, filter, metrics_dir, metrics_name, metrics_key, webhook_dir, webhook_name,
      webhook_key,
    ) =
      secure flags in
    (
      rw metrics-tls_opts (protos flags c),
      rw webhook-tls_opts (protos flags c),
      serving,
      filter,
      metrics_dir,
      metrics_name,
      metrics_key,
      webhook_dir,
      webhook_name,
      webhook_key,
    )
