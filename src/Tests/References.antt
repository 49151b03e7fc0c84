-- ===== src/Tests/References.antt =====
-- A run of one role group's registration and of its stateful set's build.
use kafka_operator.Prelude.{none, List, [], ◌∷◌, ◌≡◌, refl, ok, Result, ◌==◌, is_set}
use kafka_operator.Prelude.Dict.{lookup, set}
use kafka_operator.Api.Library.{OverridesSpec}
use kafka_operator.Api.Library.{StatefulSet}
use kafka_operator.Prelude.Int.{pos}
use kafka_operator.Config.{
  default_kafka_config, default_role_group_config_spec, fill_file, merge_base_config,
  merge_base_config_of, merge_file, merge_files, merge_from_user_config, merge_overrides,
  merge_overrides_of, merge_resources, with_resources,
}
use kafka_operator.ConfigMap.{KafkaConfigmapBuilder, is_vector_enable, new_kafka_configmap_builder}
use kafka_operator.Container.{
  command_args, get_kerberso_auth, launch_command, new_kafka_container, volume_mount,
}
use kafka_operator.Kerberos.{get_volume_mount, get_volumes}
use kafka_operator.Listener.{get_kafka_listener_config}
use kafka_operator.ListenerBuilder.{GenericBuilder, role_group_bootstrap_listener}
use kafka_operator.ListenerVolume.{build_ephemeral, build_pvc, new_annotation, to_annotation}
use kafka_operator.Ports.{bootstrap_listener_name}
use kafka_operator.Role.{first_kerberos_class, get_kerberos_secret_class, uses_kerberos}
use kafka_operator.Security.{
  any_kerberos, get_kerberos_auth, is_kerberos_enabled, tls_internal_secret_class,
  tls_server_secret_class,
}
use kafka_operator.Security.Volumes.{
  add_keystore, add_volume, add_volume_and_volume_mounts, add_volume_mount, get_container,
}
use kafka_operator.Service.{
  ServiceBuilder, ServiceOptions, new_service_builder, new_role_group_service,
  new_role_group_metrics_service,
}
use kafka_operator.StatefulSet.Template.{Keeps}
use kafka_operator.StatefulSet.{
  add_container, add_vector, add_volume_claim_templates, add_volumes, bootstrap_listener_pvc, build,
  create_main_container, data_pvc, get_object, new_stateful_set_builder, volumes_of,
}
use kafka_operator.StatefulSet.Reconciler.{StatefulSetReconciler, new_stateful_set_reconciler}
use kafka_operator.Broker.{
  Reconciler, bootstrap_listener, kafka_configmap, metrics_service, new_broker_reconciler,
  register_resource_with_role_group, register_role_group, role_group_service, stateful_set,
}
use kafka_operator.Broker.References.{IsWired, register_role_group-IsWired}
use kafka_operator.Tests.Data.{constants, secured_security}
use kafka_operator.Tests.Broker.{brokers, group, library, role}
use kafka_operator.Tests.StatefulSet.{filled_brokers, info, pods, pods_keep, set_or_empty, toolkit}

-- the five reconcilers of a role group
record Five : Type 0 where
  svc : ServiceBuilder
  config_map : KafkaConfigmapBuilder
  set_reconciler : StatefulSetReconciler
  listener : GenericBuilder
  metrics : ServiceOptions

abbrev reconcilers : Five → List Reconciler
reconcilers f =
    role_group_service f.svc
    ∷ kafka_configmap f.config_map
    ∷ stateful_set f.set_reconciler
    ∷ bootstrap_listener f.listener
    ∷ metrics_service f.metrics
    ∷ []

abbrev no_overrides : OverridesSpec
no_overrides = record {
  env_overrides = none;
  cli_overrides = none;
  config_overrides = none;
  pod_overrides = none;
}

-- five reconcilers of brokers without overrides
abbrev spare : Five
spare = record {
  svc = new_service_builder (new_role_group_metrics_service constants none none info);
  config_map = new_kafka_configmap_builder "" info none secured_security none none;
  set_reconciler =
      new_stateful_set_reconciler "" none role.image (pos 1) none none info filled_brokers
        no_overrides secured_security;
  listener = role_group_bootstrap_listener none "" info secured_security;
  metrics = new_role_group_metrics_service constants none none info;
}

abbrev five_of : Result (List Reconciler) → Five
five_of
      (ok (
        role_group_service svc
        ∷ kafka_configmap config_map
        ∷ stateful_set set_reconciler
        ∷ bootstrap_listener listener
        ∷ metrics_service metrics
        ∷ [])) =
    record {
      svc = svc;
      config_map = config_map;
      set_reconciler = set_reconciler;
      listener = listener;
      metrics = metrics;
    }
five_of _ = spare

abbrev five : Five
five = five_of (register_role_group constants library role brokers "default" group)

registered :
    register_role_group constants library role brokers "default" group ≡ ok (reconcilers five)
unfolding new_broker_reconciler register_role_group register_resource_with_role_group
    merge_from_user_config default_kafka_config merge_base_config merge_base_config_of
    default_role_group_config_spec with_resources merge_resources merge_overrides merge_overrides_of
    merge_files merge_file fill_file lookup set ◌==◌ new_role_group_service
registered = refl

abbrev outcome : Result StatefulSet
outcome = build constants toolkit pods five.set_reconciler.builder

built : outcome ≡ ok (set_or_empty outcome)
unfolding new_broker_reconciler register_role_group register_resource_with_role_group
    merge_from_user_config default_kafka_config merge_base_config merge_base_config_of
    default_role_group_config_spec with_resources merge_resources merge_overrides merge_overrides_of
    merge_files merge_file fill_file lookup set ◌==◌ new_role_group_service
    new_stateful_set_reconciler build new_stateful_set_builder create_main_container
    bootstrap_listener_pvc data_pvc volumes_of add_vector get_object add_container add_volumes
    add_volume_claim_templates is_vector_enable new_kafka_container command_args launch_command
    get_kerberso_auth get_kerberos_auth get_kafka_listener_config volume_mount build_ephemeral
    build_pvc to_annotation new_annotation get_volumes get_volume_mount get_kerberos_secret_class
    first_kerberos_class uses_kerberos is_kerberos_enabled any_kerberos add_volume_and_volume_mounts
    add_keystore get_container add_volume add_volume_mount tls_server_secret_class
    tls_internal_secret_class bootstrap_listener_name is_set
built = refl

overrides_kept : Keeps pods five.set_reconciler.builder.overrides
unfolding new_broker_reconciler register_role_group register_resource_with_role_group
    merge_from_user_config default_kafka_config merge_base_config merge_base_config_of
    default_role_group_config_spec with_resources merge_resources merge_overrides merge_overrides_of
    merge_files merge_file fill_file lookup set ◌==◌ new_role_group_service
    new_stateful_set_reconciler build new_stateful_set_builder create_main_container
    bootstrap_listener_pvc data_pvc volumes_of add_vector get_object add_container add_volumes
    add_volume_claim_templates is_vector_enable new_kafka_container command_args launch_command
    get_kerberso_auth get_kerberos_auth get_kafka_listener_config volume_mount build_ephemeral
    build_pvc to_annotation new_annotation get_volumes get_volume_mount get_kerberos_secret_class
    first_kerberos_class uses_kerberos is_kerberos_enabled any_kerberos add_volume_and_volume_mounts
    add_keystore get_container add_volume add_volume_mount tls_server_secret_class
    tls_internal_secret_class bootstrap_listener_name is_set
overrides_kept = pods_keep five.set_reconciler.builder.overrides refl

register_role_group-IsWired_example :
    IsWired constants five.svc five.config_map five.listener role.role_info.cluster_name
      (set_or_empty outcome)
register_role_group-IsWired_example =
    register_role_group-IsWired constants (unfold is_set ◌==◌ in refl) (unfold is_set ◌==◌ in refl)
      toolkit pods library role brokers "default" group five.svc five.config_map five.set_reconciler
      five.listener five.metrics (set_or_empty outcome) registered overrides_kept (tt, tt) built
