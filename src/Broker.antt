-- ===== src/Broker.antt =====
-- internal/controller/role.go: the broker role, and what it registers for each role group. A
-- reconciler is recorded as what it builds its object of.
pub mod Registered
pub mod Built
pub mod Admissible
pub mod References
use kafka_operator.Prelude.{
  String, Bool, Option, none, some, List, [], ◌∷◌, ◌++◌, Result, ok, ◌>>=◌, deref,
}
use kafka_operator.Prelude.Dict.{Dict}
use kafka_operator.Prelude.Int.{ℤ}
use kafka_operator.Api.Library.{Constants, Image, OverridesSpec}
use kafka_operator.Api.Types.{
  BrokersConfigSpec, BrokersRoleGroupSpec, BrokersSpec, ClusterConfigSpec, ClusterOperationSpec,
  KafkaCluster,
}
use kafka_operator.Security.{KafkaSecurity}
use kafka_operator.Config.{Affinity, merge_from_user_config}
use kafka_operator.Ports.{RoleGroupInfo}
use kafka_operator.ListenerBuilder.{GenericBuilder, role_group_bootstrap_listener}
use kafka_operator.ConfigMap.{KafkaConfigmapBuilder, new_kafka_configmap_builder}
use kafka_operator.Service.{
  ServiceBuilder, ServiceOptions, new_role_group_service, new_role_group_metrics_service,
}
use kafka_operator.StatefulSet.Reconciler.{
  StatefulSetReconciler, new_stateful_set_reconciler, is_stopped,
}

-- operator-go's RoleInfo
pub record RoleInfo : Type 0 where
  pub cluster_name : String
  pub role_name : String

-- What operator-go provides: the merge of a role's object with its role group's, where either may
-- be nil; the full name, labels and annotations of a role group; the labels of an object that a
-- client's builder makes; the JSON of an affinity.
pub record RoleLibrary : Type 0 where
  pub merge_config :
      Option BrokersConfigSpec → Option BrokersConfigSpec → Result (Option BrokersConfigSpec)
  pub merge_overrides_spec :
      Option OverridesSpec → Option OverridesSpec → Result (Option OverridesSpec)
  pub full_name : RoleInfo → String → String
  pub labels : RoleGroupInfo → Option (Dict String)
  pub annotations : RoleGroupInfo → Option (Dict String)
  pub object_labels : KafkaCluster → Option (Dict String)
  pub marshal : Affinity → Result String

pub data Reconciler : Type 0 where
  role_group_service : ServiceBuilder → Reconciler
  kafka_configmap : KafkaConfigmapBuilder → Reconciler
  stateful_set : StatefulSetReconciler → Reconciler
  bootstrap_listener : GenericBuilder → Reconciler
  metrics_service : ServiceOptions → Reconciler

-- `client` is the owner reference of the client, `resources` what is added to the base reconciler.
pub record BrokerReconciler : Type 0 where
  pub client : KafkaCluster
  pub stopped : Bool
  pub role_info : RoleInfo
  pub spec : Option BrokersSpec
  pub image : Image
  pub cluster_config : Option ClusterConfigSpec
  pub cluster_operation : Option ClusterOperationSpec
  pub kafka_tls_security : KafkaSecurity
  pub resources : List Reconciler

unfoldable pub new_broker_reconciler :
    KafkaCluster
    → RoleInfo
    → Option BrokersSpec
    → Image
    → Option ClusterConfigSpec
    → Option ClusterOperationSpec
    → KafkaSecurity
    → BrokerReconciler
new_broker_reconciler client info spec image config operation k = record {
  client = client;
  stopped = is_stopped operation;
  role_info = info;
  spec = spec;
  image = image;
  cluster_config = config;
  cluster_operation = operation;
  kafka_tls_security = k;
  resources = [];
}

abbrev pub empty_config : BrokersConfigSpec
empty_config = record {
  role_group_config = none;
  broker_listener_class = "";
  bootstrap_listener_class = "";
  requested_secret_life_time = "";
}

abbrev pub empty_overrides : OverridesSpec
empty_overrides = record {
  cli_overrides = none;
  env_overrides = none;
  config_overrides = none;
  pod_overrides = none;
}

abbrev pub or_new {ℓ} : {A : Type ℓ} → Option A → A → A
or_new none fresh = fresh
or_new (some a) fresh = a

module _ (c : Constants) (lib : RoleLibrary) (b : BrokerReconciler) where
  abbrev pub role_group_info : String → RoleGroupInfo
  role_group_info name = record {
    full_name = lib.full_name b.role_info name;
    cluster_name = b.role_info.cluster_name;
    role_name = b.role_info.role_name;
    role_group_name = name;
  }

  unfoldable pub register_resource_with_role_group :
      ℤ → RoleGroupInfo → OverridesSpec → BrokersConfigSpec → Result (List Reconciler)
  register_resource_with_role_group replicas info overrides config = do
    svc ← new_role_group_service c (lib.labels info) info
    ok (
        role_group_service svc
        ∷ kafka_configmap (
            new_kafka_configmap_builder b.client.namespace info b.cluster_config
              b.kafka_tls_security (some overrides) config.role_group_config)
        ∷ stateful_set (
            new_stateful_set_reconciler b.client.namespace (lib.labels info) b.image replicas
              b.cluster_config b.cluster_operation info config overrides b.kafka_tls_security)
        ∷ bootstrap_listener (
            role_group_bootstrap_listener (lib.object_labels b.client)
              config.bootstrap_listener_class info b.kafka_tls_security)
        ∷ metrics_service
            (new_role_group_metrics_service c (lib.labels info) (lib.annotations info) info)
        ∷ [])

  -- the body of the loop; a nil role group panics
  unfoldable pub register_role_group :
      BrokersSpec → String → Option BrokersRoleGroupSpec → Result (List Reconciler)
  register_role_group spec name group = do
    role_group ← deref group
    config ← lib.merge_config spec.config role_group.config
    overrides ← lib.merge_overrides_spec spec.overrides role_group.overrides
    (merged_config, merged_overrides) ←
        merge_from_user_config c lib.marshal (some (or_new config empty_config))
          (some (or_new overrides empty_overrides)) b.role_info.cluster_name
    own_config ← deref merged_config
    own_overrides ← deref merged_overrides
    register_resource_with_role_group role_group.replicas (role_group_info name) own_overrides
        own_config

  -- the loop over an enumeration of the role groups, which adds to the resources
  unfoldable pub register_role_groups :
      BrokersSpec → Dict (Option BrokersRoleGroupSpec) → List Reconciler → Result (List Reconciler)
  register_role_groups spec [] resources = ok resources
  register_role_groups spec ((name, group) ∷ groups) resources = do
    reconcilers ← register_role_group spec name group
    register_role_groups spec groups (resources ++ reconcilers)

  -- A nil spec panics.
  unfoldable pub register_resources : Result BrokerReconciler
  register_resources = do
    spec ← deref b.spec
    resources ← register_role_groups spec spec.role_groups b.resources
    ok (record b { resources = resources })
