-- ===== src/Listener/Encryption.antt =====
-- internal/controller/listener.go against internal/security/security.go: which listeners speak TLS,
-- and whether they have the stores for it.
use kafka_operator.Prelude.{
  String, Bool, true, false, not, ◌&&◌, ◌||◌, none, some, ◌≡◌, arith, ok, is_set, ◌==◌, subst, sym,
  Result-ok_injective,
}
use kafka_operator.Prelude.Dict.{lookup, set}
use kafka_operator.Security.{
  KafkaSecurity, is_kerberos_enabled, tls_client_authentication_class, tls_server_secret_class,
  tls_internal_secret_class, tls_keystore_server_dir, tls_keystore_internal_dir, client_port,
  tls_enabled,
}
use kafka_operator.Security.Settings.{config_settings}
use kafka_operator.Security.Stores.{StoresIf, config_settings-IsConfigured}
use kafka_operator.Listener.{
  KafkaListenerConfig, listener_config, get_kafka_listener_config, client, client_auth, internal,
  bootstrap, ssl,
}

-- The listener is in the protocol map with TLS.
abbrev pub is_ssl : String → KafkaListenerConfig → Bool
is_ssl name config = elim (lookup name config.listener_security_protocol_map) [
  | none ↦ false
  | some p ↦ p == ssl
]

-- Each listener has its store settings if it speaks TLS, and none of them otherwise.
pub record HasMatchingStores (k : KafkaSecurity) (config : KafkaListenerConfig) : Type 0 where
  pub clients :
      StoresIf
        (is_ssl client config)
        "client"
        tls_keystore_server_dir
        k.ssl_store_password
        (config_settings k)
  pub authenticating :
      StoresIf
        (is_ssl client_auth config)
        "client_auth"
        tls_keystore_server_dir
        k.ssl_store_password
        (config_settings k)
  pub internals :
      StoresIf
        (is_ssl internal config)
        "internal"
        tls_keystore_internal_dir
        k.ssl_store_password
        (config_settings k)
  pub bootstraps :
      StoresIf
        (is_ssl bootstrap config)
        "bootstrap"
        tls_keystore_server_dir
        k.ssl_store_password
        (config_settings k)

-- When each listener speaks TLS.
module _ (namespace : String) (k : KafkaSecurity) (object_name : String) where
  listener_ssl :
      let config = listener_config namespace k object_name in
      let auth = is_set (tls_client_authentication_class k) in
      (is_ssl client config
        ≡ (not auth && (is_kerberos_enabled k || is_set (tls_server_secret_class k))))
      × (is_ssl client_auth config ≡ auth)
      × (is_ssl internal config ≡ (is_set (tls_internal_secret_class k) || is_kerberos_enabled k))
      × (is_ssl bootstrap config ≡ is_kerberos_enabled k)
  unfolding listener_config set lookup ◌==◌
  listener_ssl = ground arith

stores_at :
    (k : KafkaSecurity) (listener dir : String) {a b : Bool}
    → a ≡ b
    → StoresIf a listener dir k.ssl_store_password (config_settings k)
    → StoresIf b listener dir k.ssl_store_password (config_settings k)
stores_at k listener dir e h =
    subst (λ x. StoresIf x listener dir k.ssl_store_password (config_settings k)) e h

module _ (namespace : String) (k : KafkaSecurity) (object_name : String)
    (config : KafkaListenerConfig)
    (found : get_kafka_listener_config namespace k object_name ≡ ok config) where
  -- If Kerberos is enabled only together with a server and an internal secret class, then every
  -- listener of the configuration that speaks TLS has its six store settings in server.properties,
  -- and every other listener has none of them.
  pub get_kafka_listener_config-HasMatchingStores :
      (is_kerberos_enabled k ≡ true → is_set (tls_server_secret_class k) ≡ true)
      → (is_kerberos_enabled k ≡ true → is_set (tls_internal_secret_class k) ≡ true)
      → HasMatchingStores k config
  unfolding get_kafka_listener_config
  get_kafka_listener_config-HasMatchingStores server inner =
      let c = config_settings-IsConfigured k in
      let s = listener_ssl namespace k object_name in
      subst (HasMatchingStores k) (Result-ok_injective found) (record {
        clients = stores_at k "client" tls_keystore_server_dir (ground (arith, s)) c.client;
        authenticating =
            stores_at k "client_auth" tls_keystore_server_dir (sym (s.1)) c.client_auth;
        internals =
            stores_at k "internal" tls_keystore_internal_dir (ground (arith, s)) c.internal_stores;
        bootstraps = stores_at k "bootstrap" tls_keystore_server_dir (sym (s.3)) c.bootstrap;
      })

  -- With Kerberos and without a server secret class and a client authentication class, the client
  -- listener is declared to speak TLS, on the port for unencrypted clients, and server.properties
  -- has none of its store settings.
  pub get_kafka_listener_config_kerberos_only :
      is_kerberos_enabled k ≡ true
      → is_set (tls_server_secret_class k) ≡ false
      → is_set (tls_client_authentication_class k) ≡ false
      → (is_ssl client config ≡ true)
        × (client_port k ≡ 9092)
        × StoresIf false "client" tls_keystore_server_dir k.ssl_store_password (config_settings k)
  unfolding get_kafka_listener_config client_port tls_enabled
  get_kafka_listener_config_kerberos_only on off no_auth =
      let s = listener_ssl namespace k object_name in
      (
        subst (λ x. is_ssl client x ≡ true) (Result-ok_injective found) (ground (arith, s)),
        ground arith,
        stores_at k "client" tls_keystore_server_dir {b = false} (ground arith)
            (config_settings-IsConfigured k).client,
      )
