-- ===== src/Tests/Data.antt =====
-- Clusters, settings and library constants to run the definitions on.
use kafka_operator.Prelude.{Option, none, some, List, [], ◌∷◌}
use kafka_operator.Api.Library.{Constants, StatefulSet}
use kafka_operator.Api.Types.{
  KafkaCluster, ClusterConfigSpec, KafkaTlsSpec, KafkaAuthenticationSpec,
}
use kafka_operator.Security.{KafkaSecurity}

abbrev pub constants : Constants
constants = record {
  secrets_class = "secrets/class";
  secrets_scope = "secrets/scope";
  secrets_format = "secrets/format";
  secrets_kerberos_service_names = "secrets/kerberos";
  secrets_pkcs12_password = "secrets/password";
  secret_cert_life_time = "secrets/life-time";
  listeners_class = "listeners/class";
  listener_name = "listeners/name";
  listener_storage_class = "listeners";
  listener_volume_scope = "listener-volume";
  pod_scope = "pod";
  node_scope = "node";
  tls_p12 = "tls-p12";
  common_delimiter = ",";
  kubedoop_data_dir = "/kubedoop/data";
  label_kubernetes_instance = "labels/instance";
  label_kubernetes_component = "labels/component";
  cluster_internal = "cluster-internal";
}

abbrev tls : KafkaTlsSpec
tls = record {
  server_secret_class = "tls";
  internal_secret_class = "tls-internal";
  ssl_store_password = "secret";
}

abbrev kerberos : List KafkaAuthenticationSpec
kerberos =
    record { authentication_class = ""; kerberos = none }
    ∷ record {
      authentication_class = "";
      kerberos = some (record { kerberos_secret_class = "krb" });
    }
    ∷ []

abbrev pub config_of : List KafkaAuthenticationSpec → Option KafkaTlsSpec → ClusterConfigSpec
config_of auths tls = record {
  cluster_domain = "cluster.local";
  authentication = auths;
  tls = tls;
  vector_aggregator_config_map_name = "";
  zookeeper_config_map_name = "znode";
}

abbrev cluster_of : List KafkaAuthenticationSpec → Option KafkaTlsSpec → KafkaCluster
cluster_of auths tls = record {
  name = "simple";
  namespace = "default";
  labels = none;
  spec = record {
    image = none;
    cluster_config = some (config_of auths tls);
    cluster_operation = none;
    brokers = none;
  };
}

-- Kerberos and TLS
abbrev pub secured : KafkaCluster
secured = cluster_of kerberos (some tls)

abbrev pub secured_security : KafkaSecurity
secured_security = record {
  kafka_authentications = kerberos;
  resolved_anthentication_class = "";
  internal_secret_class = "tls-internal";
  server_secret_class = "tls";
  ssl_store_password = "secret";
  kerberos_auth = some (record { role = record { cluster = secured } });
}

-- Kerberos without TLS
abbrev pub kerberos_only : KafkaSecurity
kerberos_only = record {
  kafka_authentications = kerberos;
  resolved_anthentication_class = "";
  internal_secret_class = "";
  server_secret_class = "";
  ssl_store_password = "";
  kerberos_auth = some (record { role = record { cluster = cluster_of kerberos none } });
}

abbrev pub broker_set : StatefulSet
broker_set = record {
  containers =
      record { name = "vector"; volume_mounts = [] }
      ∷ record { name = "kafka"; volume_mounts = record { name = "log"; mount_path = "/log" } ∷ [] }
      ∷ [];
  volumes = [];
  volume_claim_templates =
      record {
        name = "log";
        template = record {
          annotations = none;
          labels = none;
          spec = record {
            access_mode = "ReadWriteOnce";
            storage_class_name = none;
            volume_mode = "Filesystem";
            storage = "2Gi";
          };
        };
      }
      ∷ [];
  service_name = "";
  service_account_name = "";
  pod_management_policy = "";
}
