-- ===== src/Security/Settings/Names.antt =====
-- internal/security/security.go: the names of the TLS settings.
use kafka_operator.Prelude.{String}

abbrev pub client_ssl_key_store_location : String
client_ssl_key_store_location = "listener.name.client.ssl.keystore.location"

abbrev pub client_ssl_key_store_password : String
client_ssl_key_store_password = "listener.name.client.ssl.keystore.password"

abbrev pub client_ssl_key_store_type : String
client_ssl_key_store_type = "listener.name.client.ssl.keystore.type"

abbrev pub client_ssl_trust_store_location : String
client_ssl_trust_store_location = "listener.name.client.ssl.truststore.location"

abbrev pub client_ssl_trust_store_password : String
client_ssl_trust_store_password = "listener.name.client.ssl.truststore.password"

abbrev pub client_ssl_trust_store_type : String
client_ssl_trust_store_type = "listener.name.client.ssl.truststore.type"

abbrev pub client_auth_ssl_key_store_location : String
client_auth_ssl_key_store_location = "listener.name.client_auth.ssl.keystore.location"

abbrev pub client_auth_ssl_key_store_password : String
client_auth_ssl_key_store_password = "listener.name.client_auth.ssl.keystore.password"

abbrev pub client_auth_ssl_key_store_type : String
client_auth_ssl_key_store_type = "listener.name.client_auth.ssl.keystore.type"

abbrev pub client_auth_ssl_trust_store_location : String
client_auth_ssl_trust_store_location = "listener.name.client_auth.ssl.truststore.location"

abbrev pub client_auth_ssl_trust_store_password : String
client_auth_ssl_trust_store_password = "listener.name.client_auth.ssl.truststore.password"

abbrev pub client_auth_ssl_trust_store_type : String
client_auth_ssl_trust_store_type = "listener.name.client_auth.ssl.truststore.type"

abbrev pub client_auth_ssl_client_auth : String
client_auth_ssl_client_auth = "listener.name.client_auth.ssl.client.auth"

abbrev pub inter_ssl_key_store_location : String
inter_ssl_key_store_location = "listener.name.internal.ssl.keystore.location"

abbrev pub inter_ssl_key_store_password : String
inter_ssl_key_store_password = "listener.name.internal.ssl.keystore.password"

abbrev pub inter_ssl_key_store_type : String
inter_ssl_key_store_type = "listener.name.internal.ssl.keystore.type"

abbrev pub inter_ssl_trust_store_location : String
inter_ssl_trust_store_location = "listener.name.internal.ssl.truststore.location"

abbrev pub inter_ssl_trust_store_password : String
inter_ssl_trust_store_password = "listener.name.internal.ssl.truststore.password"

abbrev pub inter_ssl_trust_store_type : String
inter_ssl_trust_store_type = "listener.name.internal.ssl.truststore.type"

abbrev pub inter_ssl_client_auth : String
inter_ssl_client_auth = "listener.name.internal.ssl.client.auth"

abbrev pub bootstrap_ssl_key_store_location : String
bootstrap_ssl_key_store_location = "listener.name.bootstrap.ssl.keystore.location"

abbrev pub bootstrap_ssl_key_store_password : String
bootstrap_ssl_key_store_password = "listener.name.bootstrap.ssl.keystore.password"

abbrev pub bootstrap_ssl_key_store_type : String
bootstrap_ssl_key_store_type = "listener.name.bootstrap.ssl.keystore.type"

abbrev pub bootstrap_ssl_trust_store_location : String
bootstrap_ssl_trust_store_location = "listener.name.bootstrap.ssl.truststore.location"

abbrev pub bootstrap_ssl_trust_store_password : String
bootstrap_ssl_trust_store_password = "listener.name.bootstrap.ssl.truststore.password"

abbrev pub bootstrap_ssl_trust_store_type : String
bootstrap_ssl_trust_store_type = "listener.name.bootstrap.ssl.truststore.type"

abbrev pub inter_broker_listener_name : String
inter_broker_listener_name = "inter.broker.listener.name"

abbrev pub pkcs12 : String
pkcs12 = "PKCS12"
