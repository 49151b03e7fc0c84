-- ===== src/ListenerBuilder.antt =====
-- internal/pkg/listener_builder.go, and the builder that internal/controller/listener.go fills for a
-- role group's bootstrap listener. A setter returns the changed builder.
use kafka_operator.Prelude.{
  ℕ, String, Bool, true, Option, none, some, List, [], ◌∷◌, ◌++◌, Result, ok, panic, ◌>>=◌,
}
use kafka_operator.Prelude.Dict.{Dict, set}
use kafka_operator.Api.Library.{ContainerPort}
use kafka_operator.Security.{KafkaSecurity}
use kafka_operator.Ports.{RoleGroupInfo, bootstrap_listener_name, kafka_container_ports}

-- listenerv1alpha1.PortSpec
pub record PortSpec : Type 0 where
  pub name : String
  pub port : ℕ
  pub protocol : String

-- what the embedded builder.ObjectMeta makes: a name and labels, a map that may be nil
pub record ObjectMeta : Type 0 where
  pub name : String
  pub labels : Option (Dict String)

pub record ListenerBuilderOptions : Type 0 where
  pub container_ports : List ContainerPort
  pub publish_not_ready_addresses : Bool
  pub extra_pod_selector_labels : Option (Dict String)

pub record GenericBuilder : Type 0 where
  pub meta : ObjectMeta
  pub listener_class : String
  pub ports : List PortSpec
  pub extra_pod_selector_labels : Option (Dict String)
  pub publish_not_ready_address : Bool

-- listenerv1alpha1.Listener, with the fields that `GetObject` sets
pub record Listener : Type 0 where
  pub meta : ObjectMeta
  pub class_name : String
  pub ports : List PortSpec

unfoldable pub container_port_to_listener_port : List ContainerPort → List PortSpec
container_port_to_listener_port [] = []
container_port_to_listener_port (p ∷ ps) =
    record { name = p.name; port = p.container_port; protocol = p.protocol }
    ∷ container_port_to_listener_port ps

unfoldable pub new_listener_builder : ObjectMeta → String → ListenerBuilderOptions → GenericBuilder
unfolding container_port_to_listener_port
new_listener_builder meta listener_class opts = record {
  meta = meta;
  listener_class = listener_class;
  ports = container_port_to_listener_port opts.container_ports;
  extra_pod_selector_labels = opts.extra_pod_selector_labels;
  publish_not_ready_address = opts.publish_not_ready_addresses;
}

-- the loop of `GetObject` over the extra labels; a write to the clone of a nil map panics
unfoldable pub add_labels : Option (Dict String) → Dict String → Result (Option (Dict String))
add_labels labels [] = ok labels
add_labels none (e ∷ es) = panic
add_labels (some labels) ((k, v) ∷ es) = add_labels (some (set k v labels)) es

unfoldable pub get_object : GenericBuilder → Result Listener
get_object g = do
  labels ← elim g.extra_pod_selector_labels [
    | none ↦ ok g.meta.labels
    | some extra ↦ add_labels g.meta.labels extra
  ]
  ok (record {
    meta = record { name = g.meta.name; labels = labels };
    class_name = g.listener_class;
    ports = g.ports;
  })

unfoldable pub set_listener_class : String → GenericBuilder → GenericBuilder
set_listener_class listener_class g = record g { listener_class = listener_class }

unfoldable pub set_ports : List PortSpec → GenericBuilder → GenericBuilder
set_ports ports g = record g { ports = ports }

unfoldable pub set_extra_pod_selector_labels :
    Option (Dict String) → GenericBuilder → GenericBuilder
set_extra_pod_selector_labels labels g = record g { extra_pod_selector_labels = labels }

unfoldable pub set_publish_not_ready_addresses : Bool → GenericBuilder → GenericBuilder
set_publish_not_ready_addresses publish g = record g { publish_not_ready_address = publish }

unfoldable pub add_port : PortSpec → GenericBuilder → GenericBuilder
add_port port g = record g { ports = g.ports ++ port ∷ [] }

unfoldable pub add_extra_pod_selector_label : String → String → GenericBuilder → GenericBuilder
add_extra_pod_selector_label key value g = record g {
  extra_pod_selector_labels =
      some (set key value (elim g.extra_pod_selector_labels [ none ↦ [] | some labels ↦ labels ]));
}

abbrev pub label_listener_bootstrap : String
label_listener_bootstrap = "app.kubernetes.io/listener-bootstrap"

abbrev pub label_value_true : String
label_value_true = "true"

-- The labels are those that operator-go gives the object.
unfoldable pub role_group_bootstrap_listener :
    Option (Dict String) → String → RoleGroupInfo → KafkaSecurity → GenericBuilder
unfolding new_listener_builder
role_group_bootstrap_listener labels bootstrap_listener_class info k =
    new_listener_builder (record { name = bootstrap_listener_name info; labels = labels })
      bootstrap_listener_class
      (record {
        container_ports = kafka_container_ports k;
        publish_not_ready_addresses = true;
        extra_pod_selector_labels = some ((label_listener_bootstrap, label_value_true) ∷ []);
      })
