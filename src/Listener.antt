-- ===== src/Listener.antt =====
-- internal/controller/listener.go: the listeners of a broker. Listener names and protocols are
-- string types in the source, and are strings here.
pub mod Consistency
pub mod Encryption
pub mod Rendering
pub mod ProtocolMap
use kafka_operator.Prelude.{String, ◌<>◌, Bool, ◌||◌, List, [], ◌∷◌, ◌++◌, map, Result, ok}
use kafka_operator.Prelude.{is_set, if◌then◌else◌}
use kafka_operator.Prelude.Dict.{Dict, set}
use kafka_operator.Prelude.Text.{join}
use kafka_operator.Prelude.Text.Decimal.{itoa}
use kafka_operator.Api.Names
use kafka_operator.ListenerVolume.{node_address_cmd, node_port_cmd, pod_fqdn}
use kafka_operator.Security.{
  KafkaSecurity, tls_client_authentication_class, tls_server_secret_class,
  tls_internal_secret_class, is_kerberos_enabled, client_port, client_port_name, internal_port,
  bootstrap_port,
}

abbrev pub local_address : String
local_address = "0.0.0.0"

abbrev pub plaintext : String
plaintext = "PLAINTEXT"

abbrev pub ssl : String
ssl = "SSL"

abbrev pub client : String
client = "CLIENT"

abbrev pub client_auth : String
client_auth = "CLIENT_AUTH"

abbrev pub internal : String
internal = "INTERNAL"

abbrev pub bootstrap : String
bootstrap = "BOOTSTRAP"

pub record KafkaListener : Type 0 where
  pub name : String
  pub host : String
  pub port : String

-- `KafkaListener.String`
unfoldable pub listener_string : KafkaListener → String
listener_string l = l.name <> ("://" <> (l.host <> (":" <> l.port)))

pub record KafkaListenerConfig : Type 0 where
  pub listeners : List KafkaListener
  pub advertised_listeners : List KafkaListener
  pub listener_security_protocol_map : Dict String

unfoldable pub listeners_string : KafkaListenerConfig → String
listeners_string config = join (map listener_string config.listeners) ","

unfoldable pub advertised_listeners_string : KafkaListenerConfig → String
advertised_listeners_string config = join (map listener_string config.advertised_listeners) ","

abbrev pub protocol_entry : String × String → String
protocol_entry (name, protocol) = name <> (":" <> protocol)

-- `ListenerSecurityProtocolMapString`, over an enumeration of the map
unfoldable pub listener_security_protocol_map_string : Dict String → String
listener_security_protocol_map_string entries = join (map protocol_entry entries) ","

-- the two appends and the map entry of one listener
abbrev pub add_listener :
    String → String → String → String → String → KafkaListenerConfig → KafkaListenerConfig
add_listener name port advertised_host advertised_port protocol config = record {
  listeners = config.listeners ++ record { name = name; host = local_address; port = port } ∷ [];
  advertised_listeners =
      config.advertised_listeners
      ++ record { name = name; host = advertised_host; port = advertised_port } ∷ [];
  listener_security_protocol_map = set name protocol config.listener_security_protocol_map;
}

module _ (k : KafkaSecurity) where
  abbrev broker_address : String
  broker_address = node_address_cmd Names.listener_broker_dir

  abbrev broker_port : String
  broker_port = node_port_cmd Names.listener_broker_dir (client_port_name k)

  unfoldable pub add_client : KafkaListenerConfig → KafkaListenerConfig
  add_client config =
      if is_set (tls_client_authentication_class k)
      then add_listener client_auth (itoa (client_port k)) broker_address broker_port ssl config
      else if is_kerberos_enabled k
      then add_listener client (itoa (client_port k)) broker_address broker_port ssl config
      else if is_set (tls_server_secret_class k)
      then add_listener client (itoa (client_port k)) broker_address broker_port ssl config
      else add_listener client (itoa Names.client_port) broker_address broker_port plaintext config

  unfoldable pub add_internal : String → KafkaListenerConfig → KafkaListenerConfig
  add_internal fqdn config =
      if is_set (tls_internal_secret_class k) || is_kerberos_enabled k
      then add_listener internal (itoa (internal_port k)) fqdn (itoa (internal_port k)) ssl config
      else add_listener internal (itoa (internal_port k)) fqdn (itoa (internal_port k)) plaintext
          config

  unfoldable pub add_bootstrap : KafkaListenerConfig → KafkaListenerConfig
  add_bootstrap config =
      if is_kerberos_enabled k
      then add_listener bootstrap (itoa (bootstrap_port k)) broker_address broker_port ssl config
      else config

-- the configuration that `GetKafkaListenerConfig` returns: the source appends to the three local
-- variables in this order
unfoldable pub listener_config : String → KafkaSecurity → String → KafkaListenerConfig
unfolding add_client add_internal add_bootstrap
listener_config namespace k object_name = add_bootstrap k (
    add_internal k (pod_fqdn namespace object_name) (
      add_client k (record {
        listeners = [];
        advertised_listeners = [];
        listener_security_protocol_map = [];
      })))

unfoldable pub get_kafka_listener_config :
    String → KafkaSecurity → String → Result KafkaListenerConfig
get_kafka_listener_config namespace k object_name = ok (listener_config namespace k object_name)
