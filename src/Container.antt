-- ===== src/Container.antt =====
-- internal/controller/container.go: what the broker's container is made of.
pub mod Parts
use kafka_operator.Prelude.{
  ℕ, String, ◌<>◌, Option, none, some, List, [], ◌∷◌, ◌++◌, Result, ok, err, panic, ◌>>=◌, deref,
  if◌then◌else◌,
}
use kafka_operator.Prelude.Int.{ℤ}
use kafka_operator.Prelude.Text.{join}
use kafka_operator.Prelude.Text.Decimal.{itoa, itoa_int}
use kafka_operator.Api.Library.{
  ContainerPort, EnvVar, value, field_ref, config_map_key_ref, ResourcesSpec, VolumeMount,
}
use kafka_operator.Api.Names
use kafka_operator.Role.{kerberos_service_name}
use kafka_operator.Kerberos.{KerberosAuthentication, get_envs, get_volume_mount}
use kafka_operator.Security.{
  KafkaSecurity, client_port_name, is_kerberos_enabled, get_kerberos_auth,
}
use kafka_operator.Resource.{
  ResourceRequirements, convert_to_resource_requirements, quantity_to_mb, eighty_percent,
}
use kafka_operator.ListenerVolume.{node_address_cmd}
use kafka_operator.Ports.{kafka_container_ports}
use kafka_operator.Listener.{
  get_kafka_listener_config, listeners_string, advertised_listeners_string,
  listener_security_protocol_map_string,
}

-- What operator-go provides: the shell functions and commands around a process, and the value of a
-- quantity in bytes.
pub record Toolkit : Type 0 where
  pub common_bash_trap_functions : String
  pub remove_vector_shutdown_file_command : String
  pub create_vector_shutdown_file_command : String
  pub quantity_value : String → ℤ

pub record KafkaContainerBuilder : Type 0 where
  pub resource_spec : Option ResourcesSpec
  pub zookeeper_discovery_znode : String
  pub kafka_security : KafkaSecurity
  pub namespace : String
  pub group_svc_name : String

-- The image and its pull policy are arguments that the source does not use.
unfoldable pub new_kafka_container :
    String → KafkaSecurity → String → String → KafkaContainerBuilder
new_kafka_container zookeeper_discovery_znode k namespace group_svc_name = record {
  resource_spec = none;
  zookeeper_discovery_znode = zookeeper_discovery_znode;
  kafka_security = k;
  namespace = namespace;
  group_svc_name = group_svc_name;
}

abbrev pub container_name : String
container_name = "kafka"

-- nil when Kerberos is not enabled or has no settings
unfoldable pub get_kerberso_auth : KafkaContainerBuilder → Option KerberosAuthentication
get_kerberso_auth d = elim (get_kerberos_auth d.kafka_security) [
  | panic ↦ none
  | err e ↦ none
  | ok auth ↦ auth
]

abbrev pub base_env : KafkaContainerBuilder → List EnvVar
base_env d =
    record { name = "POD_NAME"; val = field_ref "metadata.name" }
    ∷ record { name = "NODE"; val = field_ref "status.hostIP" }
    ∷ record {
      name = "ZOOKEEPER";
      val = config_map_key_ref d.zookeeper_discovery_znode "ZOOKEEPER";
    }
    ∷ record {
      name = "KAFKA_LOG4J_OPTS";
      val =
          value
            ("-Dlog4j.configuration=file:" <> Names.log_config_dir <> "/" <> Names.log4j_file_name);
    }
    ∷ record {
      name = "EXTRA_ARGS";
      val = value (
          "-Djava.security.properties="
          <> Names.config_dir
          <> "/security.properties -javaagent:"
          <> Names.kubedoop_root
          <> "/jmx/jmx_prometheus_javaagent.jar="
          <> itoa Names.metrics_port
          <> ":"
          <> Names.kubedoop_root
          <> "/jmx/config.yaml");
    }
    ∷ []

unfoldable pub container_env : Toolkit → KafkaContainerBuilder → List EnvVar
container_env t d =
    let kerberos : List EnvVar =
      if is_kerberos_enabled d.kafka_security
      then base_env d ++ get_envs (get_kerberso_auth d)
      else base_env d in
    elim d.resource_spec [
      | none ↦ kerberos
      | some resources ↦ elim resources.memory_limit [
        | none ↦ kerberos
        | some limit ↦
            kerberos
            ++ record {
              name = "KAFKA_HEAP_OPTS";
              val = value (
                  "-Xmx"
                  <> itoa_int (eighty_percent (quantity_to_mb (t.quantity_value limit)))
                  <> "m");
            }
              ∷ []
      ]
    ]

unfoldable pub resource_requirements : KafkaContainerBuilder → ResourceRequirements
resource_requirements d = convert_to_resource_requirements d.resource_spec

abbrev pub base_mounts : List VolumeMount
base_mounts =
    record { name = Names.data_dir_name; mount_path = Names.data_dir }
    ∷ record { name = Names.config_dir_name; mount_path = Names.config_dir }
    ∷ record { name = Names.log_dir_name; mount_path = Names.log_dir }
    ∷ record { name = Names.log_config_dir_name; mount_path = Names.log_config_dir }
    ∷ record { name = Names.listener_broker; mount_path = Names.listener_broker_dir }
    ∷ record { name = Names.listener_bootstrap; mount_path = Names.listener_bootstrap_dir }
    ∷ []

unfoldable pub volume_mount : KafkaContainerBuilder → List VolumeMount
volume_mount d =
    if is_kerberos_enabled d.kafka_security
    then base_mounts ++ get_volume_mount (get_kerberso_auth d)
    else base_mounts

-- corev1.Probe on a TCP port that is named
pub record Probe : Type 0 where
  pub failure_threshold : ℕ
  pub initial_delay_seconds : ℕ
  pub period_seconds : ℕ
  pub success_threshold : ℕ
  pub timeout_seconds : ℕ
  pub tcp_port : String

unfoldable pub liveness_probe : KafkaContainerBuilder → Probe
liveness_probe d = record {
  failure_threshold = 6;
  initial_delay_seconds = 20;
  period_seconds = 30;
  success_threshold = 1;
  timeout_seconds = 5;
  tcp_port = client_port_name d.kafka_security;
}

unfoldable pub readiness_probe : KafkaContainerBuilder → Probe
readiness_probe d = record {
  failure_threshold = 3;
  initial_delay_seconds = 20;
  period_seconds = 30;
  success_threshold = 1;
  timeout_seconds = 1;
  tcp_port = client_port_name d.kafka_security;
}

unfoldable pub container_ports : KafkaContainerBuilder → List ContainerPort
container_ports d = kafka_container_ports d.kafka_security

abbrev pub command : List String
command = "sh" ∷ "-c" ∷ []

-- A path to the keytab's login module for the principal of an address
abbrev jaas_override : String → String → String → String
jaas_override listener service_name address =
    "--override \"listener.name." <> listener
    <> ".gssapi.sasl.jaas.config=com.sun.security.auth.module.Krb5LoginModule required useKeyTab=true storeKey=true isInitiator=false keyTab=\\\"/kubedoop/kerberos/keytab\\\" principal=\\\""
    <> service_name <> "/" <> address <> "@$KERBEROS_REALM\\\";\""

-- With Kerberos enabled, a nil authentication panics when its role is read.
unfoldable pub launch_command : KafkaContainerBuilder → String → String → String → Result String
launch_command d listeners advertised protocol_map = do
  let start =
      "bin/kafka-server-start.sh " <> Names.config_dir <> "/" <> Names.server_file_name
      <> " --override \"zookeeper.connect=${ZOOKEEPER}\" --override \"listeners=" <> listeners
      <> "\" --override \"advertised.listeners=" <> advertised
      <> "\" --override \"listener.security.protocol.map=" <> protocol_map <> "\" "
  kerberos ←
      if is_kerberos_enabled d.kafka_security
      then (do
        auth ← deref (get_kerberso_auth d)
        let service = kerberos_service_name auth.role
        ok (
            " "
            <> jaas_override "client" service (node_address_cmd Names.listener_broker_dir)
            <> " "
            <> jaas_override "bootstrap" service (node_address_cmd Names.listener_bootstrap_dir)))
      else ok ""
  ok (start <> kerberos <> " &")

-- nil if the listeners cannot be computed. The protocol map is enumerated as it was filled.
unfoldable pub command_args : Toolkit → KafkaContainerBuilder → Result (Option (List String))
command_args t d = elim (get_kafka_listener_config d.namespace d.kafka_security d.group_svc_name) [
  | panic ↦ panic
  | err e ↦ ok none
  | ok config ↦ (do
    launch ←
        launch_command d (listeners_string config) (advertised_listeners_string config)
          (listener_security_protocol_map_string config.listener_security_protocol_map)
    ok (
        some (
          join
            (("set -x"
                ∷ t.common_bash_trap_functions
                ∷ t.remove_vector_shutdown_file_command
                ∷ "prepare_signal_handlers"
                ∷ (if is_kerberos_enabled d.kafka_security
                    then ("export KERBEROS_REALM=$(grep -oP 'default_realm = \\K.*' "
                        <> Names.kerberos_krb5_path <> ")")
                      ∷ []
                    else []))
              ++ (launch ∷ "wait_for_termination" ∷ t.create_vector_shutdown_file_command ∷ []))
            "\n"
          ∷ [])))
]
