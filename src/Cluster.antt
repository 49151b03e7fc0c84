-- ===== src/Cluster.antt =====
-- internal/controller/cluster.go and rbac.go: the reconciler of a cluster, its image, and what it
-- registers.
pub mod Images
pub mod Registration
pub mod Complete
use kafka_operator.Prelude.{
  String, Bool, true, false, Option, none, some, List, [], ◌∷◌, ◌++◌, Result, ok, ◌>>=◌, deref,
  is_set, if◌then◌else◌,
}
use kafka_operator.Api.Library.{Constants, Image, ImageOptions}
use kafka_operator.Api.Names
use kafka_operator.Api.Types.{
  BrokersSpec, ClusterConfigSpec, ClusterOperationSpec, ImageSpec, KafkaCluster, KafkaClusterSpec,
}
use kafka_operator.Version
use kafka_operator.Security.{KafkaSecurity, new_kafka_security}
use kafka_operator.Discovery.{
  DiscoveryBuilder, new_kafka_discovery_reconciler, new_kafka_discovery_node_port_reconciler,
}
use kafka_operator.Config.{role_name}
use kafka_operator.Broker.{BrokerReconciler, RoleLibrary, new_broker_reconciler}
use kafka_operator.Broker

-- operator-go's `NewImage`, whose last argument changes the options that the image is made with
abbrev pub NewImage : Type 0
NewImage = String → String → String → (ImageOptions → Result ImageOptions) → Result Image

-- What is registered: a service account by its name, a role with its resources, a discovery config
-- map.
pub data Resource : Type 0 where
  service_account : String → Resource
  broker_role : BrokerReconciler → Resource
  discovery : DiscoveryBuilder → Resource

-- `client`, `cluster_name`, `base_operation`, `spec` and `resources` belong to the embedded base
-- cluster; `client` is the owner reference of the client.
pub record ClusterReconciler : Type 0 where
  pub client : KafkaCluster
  pub cluster_name : String
  pub base_operation : Option ClusterOperationSpec
  pub spec : KafkaClusterSpec
  pub resources : List Resource
  pub cluster_config : Option ClusterConfigSpec
  pub cluster_operation : Option ClusterOperationSpec

-- The field for the cluster's operation is not written.
unfoldable pub new_cluster_reconciler : KafkaCluster → String → KafkaClusterSpec → ClusterReconciler
new_cluster_reconciler client cluster_name spec = record {
  client = client;
  cluster_name = cluster_name;
  base_operation = spec.cluster_operation;
  spec = spec;
  resources = [];
  cluster_config = spec.cluster_config;
  cluster_operation = none;
}

unfoldable pub add_resource : Resource → ClusterReconciler → ClusterReconciler
add_resource x r = record r { resources = r.resources ++ x ∷ [] }

-- the closure that is given to `NewImage`
unfoldable pub user_options : ClusterReconciler → ImageOptions → Result ImageOptions
user_options r options = do
  image ← deref r.spec.image
  pull_policy ← deref image.pull_policy
  ok (record { custom = image.custom; repo = image.repo; pull_policy = pull_policy })

unfoldable pub with_versions : ImageSpec → Image → Image
with_versions spec image =
    let kubedoop =
      if is_set spec.kubedoop_version
      then record image { kubedoop_version = spec.kubedoop_version }
      else image in
    if is_set spec.product_version
    then record kubedoop { product_version = spec.product_version }
    else kubedoop

unfoldable pub get_image : NewImage → ClusterReconciler → Result Image
get_image new_image r = do
  image ←
      new_image Names.default_product_name Version.build_version Names.default_product_version
        (user_options r)
  spec ← deref r.spec.image
  ok (with_versions spec image)

unfoldable pub register_resources :
    Constants → RoleLibrary → NewImage → ClusterReconciler → Result ClusterReconciler
register_resources c lib new_image r = do
  let with_account = add_resource (service_account r.cluster_name) r
  k ← new_kafka_security r.client
  image ← get_image new_image r
  let node =
      new_broker_reconciler r.client
        (record { cluster_name = r.cluster_name; role_name = role_name }) r.spec.brokers image
        r.cluster_config r.cluster_operation k
  registered ← Broker.register_resources c lib node
  let with_role = add_resource (broker_role registered) with_account
  let with_discovery =
      add_resource (discovery (new_kafka_discovery_reconciler r.client.name k)) with_role
  ok (
      add_resource (discovery (new_kafka_discovery_node_port_reconciler r.client.name k))
        with_discovery)
