-- ===== src/DeepCopy/Objects.antt =====
-- api/v1alpha1/kafkacluster_types.go and image.go: the resource with the addresses of its parts. A
-- value of a type of operator-go or Kubernetes that has parts of its own is of the type `E`.
use kafka_operator.Prelude.{String, List}
use kafka_operator.Prelude.Int.{ℤ}
use kafka_operator.Prelude.Dict.{Dict}
use kafka_operator.Api.Types.{
  ClusterOperationSpec, KafkaTlsSpec, KerberosAuthenticationProviderSpec,
}
use kafka_operator.DeepCopy.Memory.{Pointer}

pub record StoredImageSpec : Type 0 where
  pub custom : String
  pub repo : String
  pub kubedoop_version : String
  pub product_version : String
  pub pull_policy : Pointer String
  pub pull_secret_name : String

pub record StoredKafkaAuthenticationSpec : Type 0 where
  pub authentication_class : String
  pub kerberos : Pointer KerberosAuthenticationProviderSpec

pub record StoredClusterConfigSpec : Type 0 where
  pub cluster_domain : String
  pub authentication : Pointer (List StoredKafkaAuthenticationSpec)
  pub tls : Pointer KafkaTlsSpec
  pub vector_aggregator_config_map_name : String
  pub zookeeper_config_map_name : String

pub record StoredConfigOverridesSpec : Type 0 where
  pub server : Pointer (Dict String)
  pub security : Pointer (Dict String)

pub record StoredBrokersConfigSpec (E : Type 0) : Type 0 where
  pub role_group_config : Pointer E
  pub broker_listener_class : String
  pub bootstrap_listener_class : String
  pub requested_secret_life_time : String

pub record StoredBrokersRoleGroupSpec (E : Type 0) : Type 0 where
  pub replicas : ℤ
  pub config : Pointer (StoredBrokersConfigSpec E)
  pub overrides : Pointer E

pub record StoredBrokersSpec (E : Type 0) : Type 0 where
  pub config : Pointer (StoredBrokersConfigSpec E)
  pub role_groups : Pointer (Dict (Pointer (StoredBrokersRoleGroupSpec E)))
  pub roleconfig : Pointer E
  pub overrides : Pointer E

pub record StoredKafkaClusterSpec (E : Type 0) : Type 0 where
  pub image : Pointer StoredImageSpec
  pub cluster_config : Pointer StoredClusterConfigSpec
  pub cluster_operation : Pointer ClusterOperationSpec
  pub brokers : Pointer (StoredBrokersSpec E)

-- metav1.TypeMeta
pub record TypeMeta : Type 0 where
  pub kind : String
  pub api_version : String

pub record StoredKafkaCluster (E : Type 0) : Type 0 where
  pub type_meta : TypeMeta
  pub object_meta : E
  pub spec : StoredKafkaClusterSpec E
  pub status : E

pub record StoredKafkaClusterList (E : Type 0) : Type 0 where
  pub type_meta : TypeMeta
  pub list_meta : E
  pub items : Pointer (List (StoredKafkaCluster E))
