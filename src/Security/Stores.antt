-- ===== src/Security/Stores.antt =====
-- internal/security/security.go, `ConfigSettings`: which listeners have keystore and truststore
-- settings, for every combination of the security settings.
use kafka_operator.Prelude.{
  String, Bool, not, ◌&&◌, none, some, ◌≡◌, ◌<>◌, arith, is_set, if◌then◌else◌, ◌==◌,
}
use kafka_operator.Prelude.Dict.{Dict, lookup, set, copy}
use kafka_operator.Prelude.Lists.{All}
use kafka_operator.Security.{
  KafkaSecurity, is_kerberos_enabled, tls_client_authentication_class, tls_server_secret_class,
  tls_internal_secret_class, tls_keystore_server_dir, tls_keystore_internal_dir,
}
use kafka_operator.Security.Settings.{config_settings}
use kafka_operator.Security.Entries.{IsSetting, config_settings-All}

-- The setting has the value if the condition holds, and is absent otherwise.
abbrev pub SetIf : Bool → String → String → Dict String → Type 0
SetIf b key value config = lookup key config ≡ (if b then some value else none)

-- So for all six store settings of the listener: the stores in the directory, with the password.
abbrev pub StoresIf : Bool → String → String → String → Dict String → Type 0
StoresIf b listener dir password config =
    SetIf b ("listener.name." <> listener <> ".ssl.keystore.location") (dir <> "/keystore.p12")
      config
    × SetIf b ("listener.name." <> listener <> ".ssl.keystore.password") password config
    × SetIf b ("listener.name." <> listener <> ".ssl.keystore.type") "PKCS12" config
    × SetIf b ("listener.name." <> listener <> ".ssl.truststore.location")
        (dir <> "/truststore.p12") config
    × SetIf b ("listener.name." <> listener <> ".ssl.truststore.password") password config
    × SetIf b ("listener.name." <> listener <> ".ssl.truststore.type") "PKCS12" config

-- The store settings of every listener, and the settings that stand alone, as conditions on the
-- settings: whether a client authentication class, a server class and an internal class are set,
-- and whether Kerberos is enabled.
pub record IsConfigured (auth server kerberos internal : Bool) (password : String)
    (config : Dict String) : Type 0 where
  pub client : StoresIf (not auth && server) "client" tls_keystore_server_dir password config
  pub client_auth : StoresIf auth "client_auth" tls_keystore_server_dir password config
  pub bootstrap : StoresIf kerberos "bootstrap" tls_keystore_server_dir password config
  pub internal_stores : StoresIf internal "internal" tls_keystore_internal_dir password config
  pub auth_required : SetIf auth "listener.name.client_auth.ssl.client.auth" "required" config
  pub internal_required : SetIf internal "listener.name.internal.ssl.client.auth" "required" config
  pub mechanisms : SetIf kerberos "sasl.enabled.mechanisms" "GSSAPI" config
  pub service : SetIf kerberos "sasl.kerberos.service.name" "kafka" config
  pub broker_mechanism : SetIf kerberos "sasl.mechanism.inter.broker.protocol" "GSSAPI" config
  pub broker_listener : lookup "inter.broker.listener.name" config ≡ some "INTERNAL"
  pub only : All IsSetting config

-- For all settings, `ConfigSettings` gives the client listener its stores when a server class but
-- no client authentication class is set, the authenticating client listener when a client
-- authentication class is set, the bootstrap listener with Kerberos, and the internal listener when
-- an internal class is set, each with the right directory and password, and none of the six
-- settings otherwise; the client authentication and SASL settings are present under the same
-- conditions, the inter-broker listener is always INTERNAL, and there is no other setting.
pub config_settings-IsConfigured :
    (k : KafkaSecurity)
    → IsConfigured
        (is_set (tls_client_authentication_class k))
        (is_set (tls_server_secret_class k))
        (is_kerberos_enabled k)
        (is_set (tls_internal_secret_class k))
        k.ssl_store_password
        (config_settings k)
unfolding config_settings set copy lookup ◌==◌
config_settings-IsConfigured k = record {
  client = ground arith;
  client_auth = ground arith;
  bootstrap = ground arith;
  internal_stores = ground arith;
  auth_required = ground arith;
  internal_required = ground arith;
  mechanisms = ground arith;
  service = ground arith;
  broker_mechanism = ground arith;
  broker_listener = ground arith;
  only = config_settings-All k;
}
