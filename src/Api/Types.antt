-- ===== src/Api/Types.antt =====
-- api/v1alpha1/kafkacluster_types.go and image.go: the resource's types. A pointer is an `Option`.
use kafka_operator.Prelude.{String, Bool, List, Option}
use kafka_operator.Prelude.Dict.{Dict}
use kafka_operator.Prelude.Int.{ℤ}
use kafka_operator.Api.Library.{RoleGroupConfigSpec, OverridesSpec}

pub record ImageSpec : Type 0 where
  pub custom : String
  pub repo : String
  pub kubedoop_version : String
  pub product_version : String
  pub pull_policy : Option String
  pub pull_secret_name : String

pub record KafkaTlsSpec : Type 0 where
  pub server_secret_class : String
  pub internal_secret_class : String
  pub ssl_store_password : String

pub record KerberosAuthenticationProviderSpec : Type 0 where
  pub kerberos_secret_class : String

pub record KafkaAuthenticationSpec : Type 0 where
  pub authentication_class : String
  pub kerberos : Option KerberosAuthenticationProviderSpec

pub record ClusterConfigSpec : Type 0 where
  pub cluster_domain : String
  pub authentication : List KafkaAuthenticationSpec
  pub tls : Option KafkaTlsSpec
  pub vector_aggregator_config_map_name : String
  pub zookeeper_config_map_name : String

pub record BrokersConfigSpec : Type 0 where
  pub role_group_config : Option RoleGroupConfigSpec
  pub broker_listener_class : String
  pub bootstrap_listener_class : String
  pub requested_secret_life_time : String

pub record BrokersRoleGroupSpec : Type 0 where
  pub replicas : ℤ
  pub config : Option BrokersConfigSpec
  pub overrides : Option OverridesSpec

pub record BrokersSpec : Type 0 where
  pub config : Option BrokersConfigSpec
  pub role_groups : Dict (Option BrokersRoleGroupSpec)
  pub overrides : Option OverridesSpec

-- commonsv1alpha1.ClusterOperationSpec, of which the operator reads one field
pub record ClusterOperationSpec : Type 0 where
  pub stopped : Bool

pub record KafkaClusterSpec : Type 0 where
  pub image : Option ImageSpec
  pub cluster_config : Option ClusterConfigSpec
  pub cluster_operation : Option ClusterOperationSpec
  pub brokers : Option BrokersSpec

-- the object metadata that the operator reads, and the spec
pub record KafkaCluster : Type 0 where
  pub name : String
  pub namespace : String
  pub labels : Option (Dict String)
  pub spec : KafkaClusterSpec
