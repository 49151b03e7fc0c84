-- ===== src/Tests/StatefulSet.antt =====
-- Runs and theorems on the broker's container and stateful set.
use kafka_operator.Prelude.{
  ℕ, String, true, false, Option, none, some, List, [], ◌∷◌, ◌≡◌, refl, ok, err, panic, Result,
  ◌==◌, ◌⊎◌, arith, sym, Result-ok_injective,
}
use kafka_operator.Prelude.Lists.{All, contains}
use kafka_operator.Prelude.Int.{pos}
use kafka_operator.Api.Library.{EnvVar, OverridesSpec, RoleGroupConfigSpec, StatefulSet, empty_dir}
use kafka_operator.Api.Types.{BrokersConfigSpec}
use kafka_operator.Role.{uses_kerberos, first_kerberos_class, get_kerberos_secret_class}
use kafka_operator.Kerberos.{get_volumes, get_volume_mount}
use kafka_operator.Security.{
  is_kerberos_enabled, any_kerberos, tls_server_secret_class, tls_internal_secret_class,
  get_kerberos_auth, new_kafka_security, with_kerberos,
}
use kafka_operator.Security.Coherence.{new_kafka_security-IsCoherent}
use kafka_operator.Config.Base.{HasDefaults}
use kafka_operator.StatefulSet.Steps.{Succeeds}
use kafka_operator.StatefulSet.Built.{LacksAgentFlag, Returns, TemplateFails, build-Succeeds}
use kafka_operator.Security.Volumes.{
  add_volume_and_volume_mounts, add_keystore, get_container, add_volume, add_volume_mount,
}
use kafka_operator.Security.Volumes.Mounts.{IsBacked}
use kafka_operator.ListenerVolume.{build_ephemeral, build_pvc, to_annotation, new_annotation}
use kafka_operator.Listener.{get_kafka_listener_config}
use kafka_operator.Ports.{RoleGroupInfo, bootstrap_listener_name}
use kafka_operator.ConfigMap.{is_vector_enable}
use kafka_operator.Container.{
  Toolkit, KafkaContainerBuilder, new_kafka_container, container_env, command_args, launch_command,
  get_kerberso_auth, volume_mount,
}
use kafka_operator.Container.Parts.{container_env_heap, numbers_of, probes_served}
use kafka_operator.Container.{liveness_probe, readiness_probe, container_ports}
use kafka_operator.Security.{client_port}
use kafka_operator.StatefulSet.{
  PodBuilder, new_stateful_set_builder, build, create_main_container, bootstrap_listener_pvc,
  data_pvc, volumes_of, add_vector, get_object, add_container, add_volumes,
  add_volume_claim_templates,
}
use kafka_operator.StatefulSet.Mounts.{build-IsBacked}
use kafka_operator.StatefulSet.Template.{Keeps}
use kafka_operator.Tests.Data.{constants, secured, secured_security, config_of}

abbrev pub toolkit : Toolkit
toolkit = record {
  common_bash_trap_functions = "trap";
  remove_vector_shutdown_file_command = "rm -f shutdown";
  create_vector_shutdown_file_command = "touch shutdown";
  quantity_value = λ q. pos 1073741824;
}

abbrev kafka : KafkaContainerBuilder
kafka = new_kafka_container "znode" secured_security "default" "simple-broker"

probes_served_example :
    (numbers_of (liveness_probe kafka).tcp_port (container_ports kafka)
      ≡ client_port kafka.kafka_security ∷ [])
    × (numbers_of (readiness_probe kafka).tcp_port (container_ports kafka)
        ≡ client_port kafka.kafka_security ∷ [])
probes_served_example = probes_served kafka

container_env_heap_example :
    All (λ (e : EnvVar). (e.name == "KAFKA_HEAP_OPTS") ≡ false) (container_env toolkit kafka)
container_env_heap_example =
    container_env_heap toolkit "znode" secured_security "default" "simple-broker"

abbrev pub pods : PodBuilder
pods = record {
  build_container = λ parts. record { name = parts.name; volume_mounts = parts.volume_mounts };
  vector_container = record {
    name = "vector";
    volume_mounts =
        record { name = "config"; mount_path = "/config" }
        ∷ record { name = "vector-data"; mount_path = "/vector" }
        ∷ [];
  };
  vector_volumes = record { name = "vector-data"; source = empty_dir } ∷ [];
  get_pod_template = λ (overrides : OverridesSpec) config containers volumes.
      elim overrides.pod_overrides [
        | none ↦ ok (containers, volumes)
        | some patch ↦ err "the pod overrides cannot be read"
      ];
}

-- without pod overrides
pub pods_keep : (overrides : OverridesSpec) → overrides.pod_overrides ≡ none → Keeps pods overrides
unfolding contains ◌==◌
pods_keep overrides plain = record {
  mounts = λ parts. refl;
  name = λ parts. refl;
  vector = (refl, (refl, tt));
  template = λ config containers volumes parts made. sym (Result-ok_injective (rw plain at made));
}

pub pods_return : Returns pods
pods_return overrides config containers volumes = ground arith

abbrev no_overrides : OverridesSpec
no_overrides = record {
  cli_overrides = none;
  env_overrides = none;
  config_overrides = none;
  pod_overrides = none;
}

abbrev pub info : RoleGroupInfo
info = record {
  full_name = "simple-broker-default";
  cluster_name = "simple";
  role_name = "broker";
  role_group_name = "default";
}

abbrev pub brokers : BrokersConfigSpec
brokers = record {
  role_group_config = some (record {
    affinity = none;
    graceful_shutdown_timeout = "30s";
    logging = some (record { enable_vector_agent = some true; containers = none });
    resources = some (record { cpu = none; memory_limit = none; storage = none });
  });
  broker_listener_class = "cluster-internal";
  bootstrap_listener_class = "cluster-internal";
  requested_secret_life_time = "1d";
}

abbrev pub set_or_empty : Result StatefulSet → StatefulSet
set_or_empty (ok sts) = sts
set_or_empty _ = record {
  containers = [];
  volumes = [];
  volume_claim_templates = [];
  service_name = "";
  service_account_name = "";
  pod_management_policy = "";
}

abbrev outcome : Result StatefulSet
outcome = build constants toolkit pods (
    new_stateful_set_builder "default" none info (some (config_of [] none)) brokers no_overrides
      secured_security)

built : outcome ≡ ok (set_or_empty outcome)
unfolding build new_stateful_set_builder create_main_container bootstrap_listener_pvc data_pvc
    volumes_of add_vector get_object add_container add_volumes add_volume_claim_templates
    is_vector_enable new_kafka_container command_args launch_command get_kerberso_auth
    get_kerberos_auth get_kafka_listener_config volume_mount build_ephemeral build_pvc to_annotation
    new_annotation get_volumes get_volume_mount get_kerberos_secret_class first_kerberos_class
    uses_kerberos is_kerberos_enabled any_kerberos add_volume_and_volume_mounts add_keystore
    get_container add_volume add_volume_mount tls_server_secret_class tls_internal_secret_class
    bootstrap_listener_name kafka_operator.Prelude.is_set ◌==◌
built = refl

build-IsBacked_example : IsBacked (set_or_empty outcome)
build-IsBacked_example =
    build-IsBacked constants toolkit pods "default" none info (some (config_of [] none)) brokers
      no_overrides secured_security (set_or_empty outcome) (pods_keep no_overrides refl) built

-- brokers whose configuration has no gap
abbrev filled : RoleGroupConfigSpec
filled = record {
  affinity = none;
  graceful_shutdown_timeout = "30s";
  logging = some (record { enable_vector_agent = some true; containers = none });
  resources = some (record {
    cpu = some (record { min = "1"; max = "2" });
    memory_limit = some "1Gi";
    storage = some (record { capacity = "1Gi"; storage_class = "" });
  });
}

abbrev pub filled_brokers : BrokersConfigSpec
filled_brokers = record brokers { role_group_config = some filled }

filled_brokers-HasDefaults : HasDefaults filled_brokers
unfolding kafka_operator.Prelude.is_set ◌==◌
filled_brokers-HasDefaults =
    (filled, _, refl, refl, ground arith, ground arith, ground arith, refl, refl, refl)

secured_made : new_kafka_security secured ≡ ok secured_security
unfolding new_kafka_security with_kerberos is_kerberos_enabled any_kerberos uses_kerberos
    kafka_operator.Prelude.is_set ◌==◌
secured_made = refl

build-Succeeds_example :
    let result = build constants toolkit pods (
      new_stateful_set_builder "default" none info
        (some (config_of [] none))
        filled_brokers
        no_overrides
        secured_security) in
    (Succeeds result × Succeeds (is_vector_enable filled.logging))
    ⊎ ((result ≡ panic) × LacksAgentFlag filled)
    ⊎ ((e : String) × (result ≡ err e)
        × Succeeds (is_vector_enable filled.logging)
        × TemplateFails toolkit pods
            (new_stateful_set_builder "default" none info
              (some (config_of [] none))
              filled_brokers
              no_overrides
              secured_security)
            filled
            e)
build-Succeeds_example =
    build-Succeeds constants (unfold kafka_operator.Prelude.is_set ◌==◌ in refl)
      (unfold kafka_operator.Prelude.is_set ◌==◌ in refl) toolkit pods no_overrides
      (pods_keep no_overrides refl) pods_return secured secured_security
      (new_kafka_security-IsCoherent secured secured_security secured_made) "default" none info
      (config_of [] none) filled_brokers filled_brokers-HasDefaults filled refl
