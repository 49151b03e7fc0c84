-- ===== src/Discovery.antt =====
-- internal/controller/discovery.go: the config map that tells clients the bootstrap servers.
pub mod Servers
pub mod Bootstrap
use kafka_operator.Prelude.{
  String, ◌<>◌, Bool, true, false, Option, none, some, List, [], ◌∷◌, ◌++◌, map, Result, ok, err,
  ◌>>=◌, if◌then◌else◌,
}
use kafka_operator.Prelude.Dict.{Dict, lookup, set}
use kafka_operator.Prelude.Int.{ℤ}
use kafka_operator.Prelude.Text.{join}
use kafka_operator.Prelude.Text.Decimal.{itoa_int}
use kafka_operator.Security.{
  KafkaSecurity, client_port_name, bootstrap_port_name, is_kerberos_enabled,
}
use kafka_operator.ListenerBuilder.{label_listener_bootstrap, label_value_true}

abbrev pub kafka_discovery_key : String
kafka_discovery_key = "KAFKA"

-- of a listener's status: an address with its ports by name
pub record IngressAddress : Type 0 where
  pub address : String
  pub ports : Dict ℤ

-- of listenerv1alpha1.Listener, the field that discovery reads; nil until the status is set
pub record ServedListener : Type 0 where
  pub ingress_addresses : Option (List IngressAddress)

pub record HostPort : Type 0 where
  pub host : String
  pub port : ℤ

-- `items` are the entries of the embedded config map builder.
pub record DiscoveryBuilder : Type 0 where
  pub name : String
  pub items : Dict String
  pub kafka_security : KafkaSecurity
  pub is_node_port : Bool

unfoldable pub new_kafka_discovery_builder : String → KafkaSecurity → Bool → DiscoveryBuilder
new_kafka_discovery_builder owner_name k is_node_port = record {
  name = if is_node_port then owner_name <> "-nodeport" else owner_name;
  items = [];
  kafka_security = k;
  is_node_port = is_node_port;
}

-- the two config maps, for a client whose owner has the name
unfoldable pub new_kafka_discovery_reconciler : String → KafkaSecurity → DiscoveryBuilder
new_kafka_discovery_reconciler owner_name k = new_kafka_discovery_builder owner_name k false

unfoldable pub new_kafka_discovery_node_port_reconciler : String → KafkaSecurity → DiscoveryBuilder
new_kafka_discovery_node_port_reconciler owner_name k =
    new_kafka_discovery_builder owner_name k true

-- the inner loop, which appends to the result
unfoldable pub address_hosts : List HostPort → List IngressAddress → String → Result (List HostPort)
address_hosts result [] port_name = ok result
address_hosts result (addr ∷ addrs) port_name = elim (lookup port_name addr.ports) [
  | none ↦ err ("no service port with name " <> port_name)
  | some port ↦
      address_hosts (result ++ record { host = addr.address; port = port } ∷ []) addrs port_name
]

-- the outer loop
unfoldable pub hosts_from : List HostPort → List ServedListener → String → Result (List HostPort)
hosts_from result [] port_name = ok result
hosts_from result (l ∷ ls) port_name = do
  extended ← elim l.ingress_addresses [
    | none ↦ ok result
    | some addrs ↦ address_hosts result addrs port_name
  ]
  hosts_from extended ls port_name

unfoldable pub listener_hosts : List ServedListener → String → Result (List HostPort)
listener_hosts items port_name = hosts_from [] items port_name

unfoldable pub server : HostPort → String
server h = h.host <> ":" <> itoa_int h.port

unfoldable pub make_bootstrap_servers : List HostPort → String
make_bootstrap_servers hosts = join (map server hosts) ","

unfoldable pub port_name : KafkaSecurity → String
port_name k = if is_kerberos_enabled k then bootstrap_port_name k else client_port_name k

-- The API server's list of the listeners with a label is `list`.
unfoldable pub build :
    (String → String → Result (List ServedListener)) → DiscoveryBuilder → Result DiscoveryBuilder
build list b = do
  items ← list label_listener_bootstrap label_value_true
  hosts ← listener_hosts items (port_name b.kafka_security)
  ok (record b { items = set kafka_discovery_key (make_bootstrap_servers hosts) b.items })
