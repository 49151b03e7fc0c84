-- ===== src/Security/Settings.antt =====
-- internal/security/security.go, `ConfigSettings`: the TLS and SASL settings of server.properties.
-- The assignments to the map are a list of entries, in the order of the source, that is copied into
-- it.
pub mod Names
use kafka_operator.Prelude.{String, ◌<>◌, [], ◌∷◌, is_set, if◌then◌else◌}
use kafka_operator.Prelude.Dict.{Dict, set, copy}
use kafka_operator.Security.{
  KafkaSecurity, tls_client_authentication_class, tls_server_secret_class,
  tls_internal_secret_class, is_kerberos_enabled, tls_keystore_server_dir,
  tls_keystore_internal_dir,
}
use kafka_operator.Security.Settings.Names.{
  client_ssl_key_store_location, client_ssl_key_store_password, client_ssl_key_store_type,
  client_ssl_trust_store_location, client_ssl_trust_store_password, client_ssl_trust_store_type,
  client_auth_ssl_key_store_location, client_auth_ssl_key_store_password,
  client_auth_ssl_key_store_type, client_auth_ssl_trust_store_location,
  client_auth_ssl_trust_store_password, client_auth_ssl_trust_store_type,
  client_auth_ssl_client_auth, inter_ssl_key_store_location, inter_ssl_key_store_password,
  inter_ssl_key_store_type, inter_ssl_trust_store_location, inter_ssl_trust_store_password,
  inter_ssl_trust_store_type, inter_ssl_client_auth, bootstrap_ssl_key_store_location,
  bootstrap_ssl_key_store_password, bootstrap_ssl_key_store_type,
  bootstrap_ssl_trust_store_location, bootstrap_ssl_trust_store_password,
  bootstrap_ssl_trust_store_type, inter_broker_listener_name, pkcs12,
}

-- with a client authentication class
abbrev pub client_auth_assignments : String → Dict String
client_auth_assignments password =
    (client_auth_ssl_key_store_location, tls_keystore_server_dir <> "/keystore.p12")
    ∷ (client_auth_ssl_key_store_password, password)
    ∷ (client_auth_ssl_key_store_type, pkcs12)
    ∷ (client_auth_ssl_trust_store_location, tls_keystore_server_dir <> "/truststore.p12")
    ∷ (client_auth_ssl_trust_store_password, password)
    ∷ (client_auth_ssl_trust_store_type, pkcs12)
    ∷ (client_auth_ssl_client_auth, "required")
    ∷ []

-- with a server class alone
abbrev pub client_assignments : String → Dict String
client_assignments password =
    (client_ssl_key_store_location, tls_keystore_server_dir <> "/keystore.p12")
    ∷ (client_ssl_key_store_password, password)
    ∷ (client_ssl_key_store_type, pkcs12)
    ∷ (client_ssl_trust_store_location, tls_keystore_server_dir <> "/truststore.p12")
    ∷ (client_ssl_trust_store_password, password)
    ∷ (client_ssl_trust_store_type, pkcs12)
    ∷ []

-- with Kerberos
abbrev pub bootstrap_assignments : String → Dict String
bootstrap_assignments password =
    (bootstrap_ssl_key_store_location, tls_keystore_server_dir <> "/keystore.p12")
    ∷ (bootstrap_ssl_key_store_password, password)
    ∷ (bootstrap_ssl_key_store_type, pkcs12)
    ∷ (bootstrap_ssl_trust_store_location, tls_keystore_server_dir <> "/truststore.p12")
    ∷ (bootstrap_ssl_trust_store_password, password)
    ∷ (bootstrap_ssl_trust_store_type, pkcs12)
    ∷ []

-- with an internal class
abbrev pub internal_assignments : String → Dict String
internal_assignments password =
    (inter_ssl_key_store_location, tls_keystore_internal_dir <> "/keystore.p12")
    ∷ (inter_ssl_key_store_password, password)
    ∷ (inter_ssl_key_store_type, pkcs12)
    ∷ (inter_ssl_trust_store_location, tls_keystore_internal_dir <> "/truststore.p12")
    ∷ (inter_ssl_trust_store_password, password)
    ∷ (inter_ssl_trust_store_type, pkcs12)
    ∷ (inter_ssl_client_auth, "required")
    ∷ []

-- client TLS with authentication, or client TLS without authentication, or neither
unfoldable pub client_settings : KafkaSecurity → Dict String → Dict String
client_settings k config =
    if is_set (tls_client_authentication_class k)
    then copy config (client_auth_assignments k.ssl_store_password)
    else if is_set (tls_server_secret_class k)
    then copy config (client_assignments k.ssl_store_password)
    else config

unfoldable pub bootstrap_settings : KafkaSecurity → Dict String → Dict String
bootstrap_settings k config =
    if is_kerberos_enabled k
    then copy config (bootstrap_assignments k.ssl_store_password)
    else config

unfoldable pub kerberos_settings : KafkaSecurity → Dict String → Dict String
kerberos_settings k config =
    if is_kerberos_enabled k
    then set "sasl.mechanism.inter.broker.protocol" "GSSAPI"
        (set "sasl.kerberos.service.name" "kafka" (set "sasl.enabled.mechanisms" "GSSAPI" config))
    else config

unfoldable pub internal_settings : KafkaSecurity → Dict String → Dict String
internal_settings k config =
    if is_set (tls_internal_secret_class k)
    then copy config (internal_assignments k.ssl_store_password)
    else config

unfoldable pub config_settings : KafkaSecurity → Dict String
unfolding client_settings bootstrap_settings kerberos_settings internal_settings
config_settings k =
    set inter_broker_listener_name "INTERNAL"
      (internal_settings k (kerberos_settings k (bootstrap_settings k (client_settings k []))))
