-- ===== src/StatefulSet.antt =====
-- internal/controller/statefulset.go: the broker's stateful set.
pub mod PodNames
pub mod Reconciler
pub mod Template
pub mod Mounts
pub mod Steps
pub mod Built
pub mod Named
pub mod References
use kafka_operator.Prelude.{
  String, Bool, true, false, Option, none, some, List, [], ◌∷◌, ◌++◌, Result, ok, ◌>>=◌, deref,
  is_set, if◌then◌else◌,
}
use kafka_operator.Prelude.Dict.{Dict}
use kafka_operator.Api.Library.{
  Constants, Container, ContainerPort, EnvVar, OverridesSpec, PersistentVolumeClaim, ResourcesSpec,
  RoleGroupConfigSpec, StatefulSet, Volume, VolumeMount, ephemeral, empty_dir, config_map,
}
use kafka_operator.Api.Names
use kafka_operator.Api.Types.{BrokersConfigSpec, ClusterConfigSpec}
use kafka_operator.Kerberos.{KerberosAuthentication, get_volumes}
use kafka_operator.Security.{KafkaSecurity, is_kerberos_enabled}
use kafka_operator.Security.Volumes.{add_volume_and_volume_mounts}
use kafka_operator.ListenerVolume.{ListenerOperatorVolumeSourceBuilder, build_ephemeral, build_pvc}
use kafka_operator.Ports.{
  RoleGroupInfo, bootstrap_listener_name, role_group_config_map_name, service_account_name,
}
use kafka_operator.ConfigMap.{is_vector_enable}
use kafka_operator.Container.{
  KafkaContainerBuilder, new_kafka_container, container_name, container_env, command, command_args,
  volume_mount, readiness_probe, liveness_probe, container_ports, Probe, Toolkit,
}

-- what operator-go's container builder is given for the main container, next to the image
pub record ContainerParts : Type 0 where
  pub name : String
  pub env : List EnvVar
  pub command : List String
  pub args : Option (List String)
  pub volume_mounts : List VolumeMount
  pub resources : Option ResourcesSpec
  pub readiness_probe : Probe
  pub liveness_probe : Probe
  pub ports : List ContainerPort

-- What operator-go does here: it builds a container of its parts, it makes the vector container and
-- its volumes, and it makes the pod template of the overrides, the role group's configuration, and the
-- builder's containers and volumes.
pub record PodBuilder : Type 0 where
  pub build_container : ContainerParts → Container
  pub vector_container : Container
  pub vector_volumes : List Volume
  pub get_pod_template :
      OverridesSpec
      → Option RoleGroupConfigSpec
      → List Container
      → List Volume
      → Result (List Container × List Volume)

-- The embedded builder's lists grow while `Build` runs; the rest is fixed.
pub record StatefulSetBuilder : Type 0 where
  pub containers : List Container
  pub volumes : List Volume
  pub volume_claim_templates : List PersistentVolumeClaim
  pub name : String
  pub namespace : String
  pub labels : Option (Dict String)
  pub cluster_name : String
  pub cluster_config : Option ClusterConfigSpec
  pub role_group_info : RoleGroupInfo
  pub broker_config : BrokersConfigSpec
  pub overrides : OverridesSpec
  pub kafka_tls_security : KafkaSecurity

-- The library's builder starts with no container, volume or claim.
unfoldable pub new_stateful_set_builder :
    String
    → Option (Dict String)
    → RoleGroupInfo
    → Option ClusterConfigSpec
    → BrokersConfigSpec
    → OverridesSpec
    → KafkaSecurity
    → StatefulSetBuilder
new_stateful_set_builder namespace labels info config broker_config overrides k = record {
  containers = [];
  volumes = [];
  volume_claim_templates = [];
  name = info.full_name;
  namespace = namespace;
  labels = labels;
  cluster_name = info.cluster_name;
  cluster_config = config;
  role_group_info = info;
  broker_config = broker_config;
  overrides = overrides;
  kafka_tls_security = k;
}

unfoldable pub add_container : Container → StatefulSetBuilder → StatefulSetBuilder
add_container x b = record b { containers = b.containers ++ x ∷ [] }

unfoldable pub add_volumes : List Volume → StatefulSetBuilder → StatefulSetBuilder
add_volumes vs b = record b { volumes = b.volumes ++ vs }

unfoldable pub add_volume_claim_templates :
    List PersistentVolumeClaim → StatefulSetBuilder → StatefulSetBuilder
add_volume_claim_templates ps b = record b {
  volume_claim_templates = b.volume_claim_templates ++ ps;
}

unfoldable pub create_main_container : Toolkit → PodBuilder → StatefulSetBuilder → Result Container
create_main_container t p b = do
  config ← deref b.cluster_config
  let d : KafkaContainerBuilder =
      new_kafka_container config.zookeeper_config_map_name b.kafka_tls_security b.namespace b.name
  args ← command_args t d
  spec ← deref b.broker_config.role_group_config
  ok (
      p.build_container (record {
        name = container_name;
        env = container_env t d;
        command = command;
        args = args;
        volume_mounts = volume_mount d;
        resources = spec.resources;
        readiness_probe = readiness_probe d;
        liveness_probe = liveness_probe d;
        ports = container_ports d;
      }))

unfoldable pub bootstrap_listener_pvc :
    Constants → StatefulSetBuilder → Result PersistentVolumeClaim
bootstrap_listener_pvc c b =
    build_pvc c
      (record {
        reference = record {
          listener_class = "";
          listener_name = bootstrap_listener_name b.role_group_info;
        };
        labels = b.labels;
      })
      Names.listener_bootstrap

unfoldable pub data_pvc : StatefulSetBuilder → Result PersistentVolumeClaim
data_pvc b = do
  spec ← deref b.broker_config.role_group_config
  resources ← deref spec.resources
  let capacity : String = elim resources.storage [ none ↦ "2Gi" | some s ↦ s.capacity ]
  let class : Option String = elim resources.storage [
    | none ↦ none
    | some s ↦ if is_set s.storage_class then some s.storage_class else none
  ]
  ok (record {
    name = Names.data_dir_name;
    template = record {
      annotations = none;
      labels = b.labels;
      spec = record {
        access_mode = "ReadWriteOnce";
        storage_class_name = class;
        volume_mode = "Filesystem";
        storage = capacity;
      };
    };
  })

unfoldable pub volumes_of : Constants → StatefulSetBuilder → Result (List Volume)
volumes_of c b = do
  listener ← build_ephemeral c (record {
    reference = record {
      listener_class = b.broker_config.broker_listener_class;
      listener_name = "";
    };
    labels = none;
  })
  let config = role_group_config_map_name b.role_group_info
  let base : List Volume =
      record { name = Names.log_dir_name; source = empty_dir }
      ∷ record { name = Names.log_config_dir_name; source = config_map config }
      ∷ record { name = Names.config_dir_name; source = config_map config }
      ∷ record { name = Names.listener_broker; source = ephemeral listener }
      ∷ []
  kerberos ←
      if is_kerberos_enabled b.kafka_tls_security
      then (do auth ← deref b.kafka_tls_security.kerberos_auth; get_volumes c auth)
      else ok []
  ok (base ++ kerberos)

unfoldable pub add_vector : PodBuilder → StatefulSetBuilder → Result StatefulSetBuilder
add_vector p b = do
  spec ← deref b.broker_config.role_group_config
  enabled ← is_vector_enable spec.logging
  ok (if enabled then add_volumes p.vector_volumes (add_container p.vector_container b) else b)

unfoldable pub get_object : PodBuilder → StatefulSetBuilder → Result StatefulSet
get_object p b = do
  template ← p.get_pod_template b.overrides b.broker_config.role_group_config b.containers b.volumes
  ok (record {
    containers = template.0;
    volumes = template.1;
    volume_claim_templates = b.volume_claim_templates;
    service_name = b.name;
    service_account_name = "";
    pod_management_policy = "";
  })

unfoldable pub build : Constants → Toolkit → PodBuilder → StatefulSetBuilder → Result StatefulSet
build c t p b = do
  main ← create_main_container t p b
  bootstrap ← bootstrap_listener_pvc c b
  claim ← data_pvc b
  let claimed = add_volume_claim_templates (bootstrap ∷ claim ∷ []) (add_container main b)
  volumes ← volumes_of c claimed
  complete ← add_vector p (add_volumes volumes claimed)
  sts ← get_object p complete
  let owned = record sts {
    service_account_name = service_account_name b.cluster_name;
    pod_management_policy = "Parallel";
  }
  add_volume_and_volume_mounts c b.kafka_tls_security owned
      b.broker_config.requested_secret_life_time
