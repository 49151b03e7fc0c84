-- ===== src/Service.antt =====
-- internal/controller/service.go: the two headless services of a role group, as the options that
-- operator-go's service builder is given, and the builder around the first. The labels and annotations
-- are those of the role group.
pub mod Metrics
use kafka_operator.Prelude.{
  String, ◌<>◌, Bool, true, Option, none, some, List, [], ◌∷◌, Result, ok, ◌>>=◌,
}
use kafka_operator.Prelude.Dict.{Dict, set, copy}
use kafka_operator.Prelude.Text.Decimal.{itoa}
use kafka_operator.Api.Library.{Constants, ContainerPort}
use kafka_operator.Api.Names
use kafka_operator.Config.{write}
use kafka_operator.Ports.{RoleGroupInfo}
use kafka_operator.ListenerBuilder.{label_value_true}

pub record ServiceOptions : Type 0 where
  pub name : String
  pub ports : List ContainerPort
  pub headless : Bool
  pub listener_class : String
  pub labels : Option (Dict String)
  pub matching_labels : Option (Dict String)
  pub annotations : Option (Dict String)

-- corev1.Service, with the field that `GetObject` sets; operator-go makes the rest of the options
pub record Service : Type 0 where
  pub options : ServiceOptions
  pub publish_not_ready_addresses : Bool

-- operator-go's base builder is given by its options.
pub record ServiceBuilder : Type 0 where
  pub base_service_builder : ServiceOptions

unfoldable pub new_service_builder : ServiceOptions → ServiceBuilder
new_service_builder options = record { base_service_builder = options }

-- The first argument is the base builder's `GetObject`.
unfoldable pub get_object : (ServiceOptions → Service) → ServiceBuilder → Service
get_object base_object b = record (base_object b.base_service_builder) {
  publish_not_ready_addresses = true;
}

-- A clone of nil is nil, so without labels the write panics.
unfoldable pub new_role_group_service :
    Constants → Option (Dict String) → RoleGroupInfo → Result ServiceBuilder
unfolding new_service_builder
new_role_group_service c labels info = do
  svc_labels ← write "prometheus.io/scrape" label_value_true labels
  ok (
      new_service_builder (record {
        name = info.full_name;
        ports = [];
        headless = true;
        listener_class = c.cluster_internal;
        labels = svc_labels;
        matching_labels = labels;
        annotations = none;
      }))

unfoldable pub create_service_metrics_name : RoleGroupInfo → String
create_service_metrics_name info = info.full_name <> "-metrics"

-- the loop that copies a map, which may be nil, into a new one
abbrev pub copied : Option (Dict String) → Dict String
copied none = []
copied (some m) = copy [] m

unfoldable pub new_role_group_metrics_service :
    Constants → Option (Dict String) → Option (Dict String) → RoleGroupInfo → ServiceOptions
new_role_group_metrics_service c labels annotations info = record {
  name = create_service_metrics_name info;
  ports =
      record {
        name = Names.metrics_port_name;
        container_port = Names.metrics_port;
        protocol = "TCP";
      }
      ∷ [];
  headless = true;
  listener_class = c.cluster_internal;
  labels = some (set "prometheus.io/scrape" label_value_true (copied labels));
  matching_labels = labels;
  annotations = some (
      set "prometheus.io/scheme" "http" (
        set "prometheus.io/port" (itoa Names.metrics_port)
          (set "prometheus.io/scrape" label_value_true (copied annotations))));
}
