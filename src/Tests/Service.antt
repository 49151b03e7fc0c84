-- ===== src/Tests/Service.antt =====
-- Runs and theorems on the services of a role group.
use kafka_operator.Prelude.{String, some, none, [], ◌∷◌, ◌≡◌, refl, panic, ◌==◌, if◌then◌else◌}
use kafka_operator.Prelude.Dict.{Dict, lookup}
use kafka_operator.Prelude.Text.Decimal.{itoa}
use kafka_operator.Api.Names
use kafka_operator.Container.Parts.{numbers_of}
use kafka_operator.ListenerBuilder.{label_value_true}
use kafka_operator.Ports.{RoleGroupInfo, kafka_container_ports}
use kafka_operator.Service.{new_role_group_metrics_service, new_role_group_service}
use kafka_operator.Service.Metrics.{new_role_group_metrics_service-served}
use kafka_operator.Tests.Data.{constants, secured_security}

abbrev info : RoleGroupInfo
info = record {
  full_name = "simple-broker-default";
  cluster_name = "simple";
  role_name = "broker";
  role_group_name = "default";
}

nil_labels : new_role_group_service constants none info ≡ panic
unfolding new_role_group_service
nil_labels = refl

new_role_group_metrics_service-served_example :
    (own_labels own_annotations : Dict String) × ((new_role_group_metrics_service constants
        (some (("a", "b") ∷ []))
        none
        info).labels
      ≡ some own_labels)
    × ((new_role_group_metrics_service constants (some (("a", "b") ∷ [])) none info).annotations
        ≡ some own_annotations)
    × (numbers_of Names.metrics_port_name
          (new_role_group_metrics_service constants (some (("a", "b") ∷ [])) none info).ports
        ≡ numbers_of Names.metrics_port_name (kafka_container_ports secured_security))
    × (lookup "prometheus.io/port" own_annotations ≡ some (itoa Names.metrics_port))
    × ((key : String)
        → lookup key own_labels ≡ (
            if "prometheus.io/scrape" == key
            then some label_value_true
            else lookup key (("a", "b") ∷ [])))
unfolding lookup
new_role_group_metrics_service-served_example =
    new_role_group_metrics_service-served constants (("a", "b") ∷ []) none info secured_security
      (refl, tt)
