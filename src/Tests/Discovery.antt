-- ===== src/Tests/Discovery.antt =====
-- Runs and theorems on discovery and the bootstrap listener.
use kafka_operator.Prelude.{
  ℕ, String, Bool, true, false, none, some, List, [], ◌∷◌, Option, ◌≡◌, refl, ok, err, Result, ◌==◌,
  ◌>>=◌, if◌then◌else◌, map,
}
use kafka_operator.Prelude.Dict.{Dict, lookup, set}
use kafka_operator.Prelude.Int.{pos}
use kafka_operator.Prelude.Text.{split, join}
use kafka_operator.Prelude.Text.Decimal.{itoa, itoa_int}
use kafka_operator.Prelude.Text.Join.{lacks}
use kafka_operator.Role.{uses_kerberos}
use kafka_operator.Security.{
  is_kerberos_enabled, any_kerberos, bootstrap_port, client_port, bootstrap_port_name,
}
use kafka_operator.Ports.{RoleGroupInfo}
use kafka_operator.ListenerBuilder.{
  Listener, get_object, role_group_bootstrap_listener, label_listener_bootstrap, label_value_true,
}
use kafka_operator.Discovery.{
  ServedListener, HostPort, DiscoveryBuilder, address_hosts, hosts_from, listener_hosts, server,
  make_bootstrap_servers, port_name, build, kafka_discovery_key,
}
use kafka_operator.Discovery.Servers.{addresses, serves, servers, missing, build-servers}
use kafka_operator.Discovery.Bootstrap.{
  ports_named, split-make_bootstrap_servers, get_object-bootstrap_listener,
}
use kafka_operator.Tests.Data.{secured_security}

abbrev listeners : List ServedListener
listeners =
    record { ingress_addresses = none }
    ∷ record {
      ingress_addresses = some (
          record { address = "a.example"; ports = ("bootstrap", pos 9095) ∷ [] }
          ∷ record { address = "b.example"; ports = ("bootstrap", pos 30001) ∷ [] }
          ∷ []);
    }
    ∷ []

abbrev discovery : DiscoveryBuilder
discovery = record {
  name = "simple";
  items = [];
  kafka_security = secured_security;
  is_node_port = false;
}

abbrev list : String → String → Result (List ServedListener)
list key val = if key == label_listener_bootstrap then ok listeners else err "unknown label"

built :
    build list discovery
    ≡ ok (record discovery { items = ("KAFKA", "a.example:9095,b.example:30001") ∷ [] })
unfolding build ◌==◌ listener_hosts hosts_from address_hosts lookup port_name is_kerberos_enabled
    any_kerberos uses_kerberos kafka_operator.Prelude.is_set bootstrap_port_name
    make_bootstrap_servers server itoa_int itoa join set
built = refl

build-servers_example : build list discovery ≡ (
    list label_listener_bootstrap label_value_true >>= λ found.
    if serves (port_name secured_security) (addresses found)
    then ok (record discovery {
      items =
          set kafka_discovery_key
            (make_bootstrap_servers (servers (port_name secured_security) (addresses found)))
            [];
    })
    else missing (port_name secured_security))
build-servers_example = build-servers list discovery

abbrev first_host : HostPort
first_host = record { host = "a.example"; port = pos 9095 }

abbrev other_hosts : List HostPort
other_hosts = record { host = "b.example"; port = pos 30001 } ∷ []

split-make_bootstrap_servers_example :
    split b',' (make_bootstrap_servers (first_host ∷ other_hosts))
    ≡ map server (first_host ∷ other_hosts)
unfolding lacks
split-make_bootstrap_servers_example =
    split-make_bootstrap_servers first_host other_hosts (refl, (refl, tt))

abbrev info : RoleGroupInfo
info = record {
  full_name = "simple-broker-default";
  cluster_name = "simple";
  role_name = "broker";
  role_group_name = "default";
}

get_object-bootstrap_listener_example :
    (l : Listener) × (labels' : Dict String) × (get_object (
        role_group_bootstrap_listener
          (some (("a", "b") ∷ []))
          "cluster-internal"
          info
          secured_security)
      ≡ ok l)
    × (l.class_name ≡ "cluster-internal")
    × (l.meta.labels ≡ some labels')
    × ((key : String)
        → lookup key labels' ≡ (
            if label_listener_bootstrap == key
            then some label_value_true
            else lookup key (("a", "b") ∷ [])))
    × (ports_named (port_name secured_security) l.ports
        ≡ (if is_kerberos_enabled secured_security
            then bootstrap_port secured_security
            else client_port secured_security)
          ∷ [])
get_object-bootstrap_listener_example =
    get_object-bootstrap_listener (("a", "b") ∷ []) "cluster-internal" info secured_security
