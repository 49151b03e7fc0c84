-- ===== src/Security.antt =====
-- internal/security/security.go: the security settings of a cluster, the ports that follow from
-- them, and the command lines of the readiness probe. The settings of server.properties and the
-- keystore volumes are in the modules below; the others prove laws of all of it.
pub mod Settings
pub mod Volumes
pub mod Coherence
pub mod Entries
pub mod Stores
use kafka_operator.Prelude.{ℕ, String, ◌<>◌, Bool, true, false, ◌||◌, List, [], ◌∷◌, ◌++◌}
use kafka_operator.Prelude.{Option, none, some, Result, ok, err, deref, ◌>>=◌}
use kafka_operator.Prelude.{is_set, if◌then◌else◌}
use kafka_operator.Prelude.Text.Decimal.{itoa}
use kafka_operator.Api.Names
use kafka_operator.Api.Types.{
  KafkaCluster, ClusterConfigSpec, KafkaAuthenticationSpec, KafkaTlsSpec,
}
use kafka_operator.Role.{uses_kerberos}
use kafka_operator.Kerberos.{KerberosAuthentication, new_kerberos_authentication}

-- directories
abbrev pub tls_cert_server_dir : String
tls_cert_server_dir = Names.kubedoop_root <> "/tls_cert_server_mount"

abbrev pub tls_keystore_server_dir : String
tls_keystore_server_dir = Names.kubedoop_root <> "/tls_keystore_server"

abbrev pub tls_keystore_server_dir_name : String
tls_keystore_server_dir_name = "tls-keystore-server"

abbrev pub tls_keystore_internal_dir : String
tls_keystore_internal_dir = Names.kubedoop_root <> "/tls_keystore_internal"

abbrev pub tls_keystore_internal_dir_name : String
tls_keystore_internal_dir_name = "tls-keystore-internal"

pub record KafkaSecurity : Type 0 where
  pub kafka_authentications : List KafkaAuthenticationSpec
  pub resolved_anthentication_class : String
  pub internal_secret_class : String
  pub server_secret_class : String
  pub ssl_store_password : String
  pub kerberos_auth : Option KerberosAuthentication

unfoldable pub any_kerberos : List KafkaAuthenticationSpec → Bool
any_kerberos [] = false
any_kerberos (auth ∷ auths) = if uses_kerberos auth then true else any_kerberos auths

unfoldable pub is_kerberos_enabled : KafkaSecurity → Bool
is_kerberos_enabled k = any_kerberos k.kafka_authentications

-- `if tlsSpec != nil { … }`
abbrev with_tls : Option KafkaTlsSpec → KafkaSecurity → KafkaSecurity
with_tls none k = k
with_tls (some tls) k = record k {
  internal_secret_class = tls.internal_secret_class;
  server_secret_class = tls.server_secret_class;
  ssl_store_password = tls.ssl_store_password;
}

-- the fields of the struct literal and of the TLS settings, before Kerberos is looked at
abbrev pub initial_security : ClusterConfigSpec → KafkaSecurity
initial_security config = with_tls config.tls (record {
  kafka_authentications = config.authentication;
  resolved_anthentication_class = "";
  internal_secret_class = "";
  server_secret_class = "";
  ssl_store_password = "";
  kerberos_auth = none;
})

-- `if instance.IsKerberosEnabled() { … }`
unfoldable pub with_kerberos : KafkaCluster → KafkaSecurity → KafkaSecurity
unfolding new_kerberos_authentication
with_kerberos cluster k =
    if is_kerberos_enabled k
    then record k {
      kerberos_auth = some (new_kerberos_authentication (record { cluster = cluster }));
    }
    else k

unfoldable pub new_kafka_security : KafkaCluster → Result KafkaSecurity
new_kafka_security cluster = do
  config ← deref cluster.spec.cluster_config
  ok (with_kerberos cluster (initial_security config))

abbrev pub tls_server_secret_class : KafkaSecurity → String
tls_server_secret_class k = k.server_secret_class

abbrev pub tls_client_authentication_class : KafkaSecurity → String
tls_client_authentication_class k = k.resolved_anthentication_class

unfoldable pub tls_internal_secret_class : KafkaSecurity → String
tls_internal_secret_class k = if is_set k.internal_secret_class then k.internal_secret_class else ""

unfoldable pub tls_enabled : KafkaSecurity → Bool
tls_enabled k = is_set (tls_client_authentication_class k) || is_set (tls_server_secret_class k)

unfoldable pub client_port : KafkaSecurity → ℕ
client_port k = if tls_enabled k then Names.security_client_port else Names.client_port

unfoldable pub bootstrap_port : KafkaSecurity → ℕ
bootstrap_port k = if tls_enabled k then Names.bootstrap_secure_port else Names.bootstrap_port

unfoldable pub client_port_name : KafkaSecurity → String
client_port_name k = if tls_enabled k then Names.secure_client_port_name else Names.client_port_name

abbrev pub bootstrap_port_name : KafkaSecurity → String
bootstrap_port_name k = Names.bootstrap_port_name

unfoldable pub internal_port : KafkaSecurity → ℕ
internal_port k =
    if is_set (tls_internal_secret_class k) || is_kerberos_enabled k
    then Names.security_internal_port
    else Names.internal_port

unfoldable pub get_kerberos_auth : KafkaSecurity → Result (Option KerberosAuthentication)
get_kerberos_auth k =
    if is_kerberos_enabled k
    then elim k.kerberos_auth [
      | none ↦ err "kerberos is enabled, but has a nil kerberos auth in KafkaSecurit"
      | some auth ↦ ok (some auth)
    ]
    else ok none

unfoldable pub svc_container_commands : KafkaSecurity → String
svc_container_commands k =
    let port_name = client_port_name k in
    "kubectl get service \"$POD_NAME\" -o jsonpath='{.spec.ports[?(@.name==\"" <> port_name
    <> "\")].nodePort}' | tee /tmp/" <> port_name <> "_nodeport"

unfoldable pub kcat_client_auth_ssl : String → List String
kcat_client_auth_ssl dir =
    "-X"
    ∷ "security.protocol=SSL"
    ∷ "-X"
    ∷ ("ssl.key.location=" <> dir <> "/tls.key")
    ∷ "-X"
    ∷ ("ssl.certificate.location=" <> dir <> "/tls.crt")
    ∷ "-X"
    ∷ ("ssl.ca.location=" <> dir <> "/ca.crt")
    ∷ []

unfoldable pub kcat_client_ssl : String → List String
kcat_client_ssl dir =
    "-X" ∷ "security.protocol=SSL" ∷ "-X" ∷ ("ssl.ca.location=" <> dir <> "/ca.crt") ∷ []

unfoldable pub kcat_prober_container_commands : KafkaSecurity → List String
kcat_prober_container_commands k =
    let broker = "-b" ∷ ("localhost:" <> itoa (client_port k)) ∷ [] in
    (Names.kubedoop_root <> "/kcat")
    ∷ ((if is_set (tls_client_authentication_class k)
          then broker ++ kcat_client_auth_ssl tls_cert_server_dir
          else if is_set (tls_server_secret_class k)
          then broker ++ kcat_client_ssl tls_cert_server_dir
          else broker)
        ++ "-L" ∷ [])
