-- ===== src/Config/Defaults.antt =====
-- internal/controller/cluster_config.go: the default configuration.
use kafka_operator.Prelude.{String, false, none, some, List, [], ◌∷◌, ℕ}
use kafka_operator.Prelude.{Result, ok, err, panic}
use kafka_operator.Prelude.Dict.{Dict, set}
use kafka_operator.Prelude.Text.{path_join}
use kafka_operator.Api.Library.{Constants, RoleGroupConfigSpec, ResourcesSpec}

abbrev pub role_name : String
role_name = "broker"

abbrev pub server_properties_filename : String
server_properties_filename = "server.properties"

abbrev pub security_properties_filename : String
security_properties_filename = "security.properties"

pub record KafkaConfig : Type 0 where
  pub role_group_config : RoleGroupConfigSpec
  pub bootstrap_listener_class : String
  pub broker_listener_class : String
  pub requested_secret_lifetime : String

abbrev pub compute_cli : KafkaConfig → Result (List String)
compute_cli k = err "unimplemented"

abbrev pub compute_env : KafkaConfig → Result (Dict String)
compute_env k = err "unimplemented"

abbrev pub server_defaults : Constants → Dict String
server_defaults c =
    ("zookeeper.connection.timeout.ms", "18000")
    ∷ ("controlled.shutdown.enable", "true")
    ∷ ("log.dirs", path_join (c.kubedoop_data_dir ∷ "topicdata" ∷ []))
    ∷ []

abbrev pub security_defaults : Dict String
security_defaults =
    ("networkaddress.cache.ttl", "30") ∷ ("networkaddress.cache.negative.ttl", "0") ∷ []

abbrev pub default_files : Constants → Dict (Dict String)
default_files c =
    (server_properties_filename, server_defaults c)
    ∷ (security_properties_filename, security_defaults)
    ∷ []

abbrev pub compute_file : Constants → KafkaConfig → Result (Dict (Dict String))
compute_file c k = ok (default_files c)

-- corev1.Affinity as `defaultAffinity` builds it: one preferred pod anti-affinity term
pub record Affinity : Type 0 where
  pub weight : ℕ
  pub match_labels : Dict String
  pub topology_key : String

unfoldable pub default_affinity : Constants → String → String → Affinity
default_affinity c role cr_name = record {
  weight = 70;
  match_labels = set c.label_kubernetes_component role (set c.label_kubernetes_instance cr_name []);
  topology_key = "kubernetes.io/hostname";
}

abbrev pub default_resources : ResourcesSpec
default_resources = record {
  cpu = some (record { min = "250m"; max = "1000m" });
  memory_limit = some "1Gi";
  storage = some (record { capacity = "2Gi"; storage_class = "" });
}

-- The library's `json.Marshal` is `marshal`; its bytes are nil when it fails.
unfoldable pub default_kafka_config : Constants → (Affinity → Result String) → String → KafkaConfig
default_kafka_config c marshal cluster_name = record {
  role_group_config = record {
    affinity = some (elim (marshal (default_affinity c role_name cluster_name)) [
      | ok raw ↦ raw
      | err e ↦ ""
      | panic ↦ ""
    ]);
    graceful_shutdown_timeout = "30s";
    logging = some (record { enable_vector_agent = some false; containers = none });
    resources = some default_resources;
  };
  bootstrap_listener_class = "cluster-internal";
  broker_listener_class = "cluster-internal";
  requested_secret_lifetime = "1d";
}
