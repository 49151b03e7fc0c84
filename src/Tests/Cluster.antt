-- ===== src/Tests/Cluster.antt =====
-- Runs and theorems on the registration of a whole cluster.
use kafka_operator.Prelude.{
  ◌*◌, ◌<>◌, false, Option, none, some, List, [], ◌∷◌, ◌≡◌, refl, ok, Result, ◌>>=◌, ◌==◌, is_set,
}
use kafka_operator.Prelude.Lists.{All, length}
use kafka_operator.Prelude.Dict.{lookup, set}
use kafka_operator.Api.Types.{BrokersSpec, ImageSpec, KafkaCluster}
use kafka_operator.Config.{
  default_kafka_config, default_role_group_config_spec, fill_file, merge_base_config,
  merge_base_config_of, merge_file, merge_files, merge_from_user_config, merge_overrides,
  merge_overrides_of, merge_resources, with_resources,
}
use kafka_operator.Security.{
  KafkaSecurity, any_kerberos, is_kerberos_enabled, new_kafka_security, with_kerberos,
}
use kafka_operator.Security.Coherence.{IsCoherent}
use kafka_operator.Role.{uses_kerberos}
use kafka_operator.Service.{new_role_group_service}
use kafka_operator.Broker
use kafka_operator.Broker.{
  BrokerReconciler, new_broker_reconciler, register_role_groups, register_role_group,
  register_resource_with_role_group,
}
use kafka_operator.Broker.Registered.{IsConfigured, IsRunning}
use kafka_operator.Broker.Built.{IsBuilt}
use kafka_operator.Cluster.{
  ClusterReconciler, NewImage, add_resource, get_image, new_cluster_reconciler, register_resources,
  user_options, with_versions,
}
use kafka_operator.Cluster.Images.{RunsOption, get_image-eq_image_of, image_of}
use kafka_operator.Cluster.Registration.{
  resources_of, register_resources-resources_of, register_resources-IsRunning_role,
  register_resources-IsBuilt_role,
}
use kafka_operator.Tests.ConfigMap.{renderers}
use kafka_operator.Tests.Vector.{once, order, renderers_render}
use kafka_operator.Cluster.Complete.{IsComplete, register_resources-Succeeds}
use kafka_operator.StatefulSet.Steps.{Succeeds}
use kafka_operator.Tests.Data.{constants, secured}
use kafka_operator.Tests.Broker.{groups-IsAdmissible, library_laws, brokers, library}
use kafka_operator.Tests.StatefulSet.{pods, pods_keep, pods_return, toolkit}

abbrev pub new_image : NewImage
new_image = λ name kubedoop_version product_version option.
    option (record { custom = ""; repo = "library"; pull_policy = "" }) >>= λ options. ok (record {
      product_name = name;
      kubedoop_version = kubedoop_version;
      product_version = product_version;
      options = options;
    })

abbrev image_spec : ImageSpec
image_spec = record {
  custom = "";
  repo = "quay.io/zncdatadev";
  kubedoop_version = "";
  product_version = "3.9.1";
  pull_policy = some "IfNotPresent";
  pull_secret_name = "secret";
}

-- a cluster that is to be stopped
abbrev pub cluster : KafkaCluster
cluster = record secured {
  spec = record {
    image = some image_spec;
    cluster_config = secured.spec.cluster_config;
    cluster_operation = some (record { stopped = kafka_operator.Prelude.true });
    brokers = some brokers;
  };
}

abbrev reconciler : ClusterReconciler
reconciler = new_cluster_reconciler cluster cluster.name cluster.spec

new_image_RunsOption : RunsOption new_image
new_image_RunsOption = (_, λ name kubedoop_version product_version option. refl)

get_image-eq_image_of_example : get_image new_image reconciler ≡ image_of reconciler.spec.image
get_image-eq_image_of_example = get_image-eq_image_of new_image reconciler new_image_RunsOption

abbrev pub outcome : Result ClusterReconciler
outcome = register_resources constants library new_image reconciler

abbrev pub reconciler_or : Result ClusterReconciler → ClusterReconciler
reconciler_or (ok r) = r
reconciler_or _ = reconciler

pub registered : outcome ≡ ok (reconciler_or outcome)
unfolding new_cluster_reconciler register_resources add_resource get_image user_options
    with_versions new_kafka_security with_kerberos is_kerberos_enabled any_kerberos uses_kerberos
    is_set new_broker_reconciler Broker.register_resources register_role_groups register_role_group
    register_resource_with_role_group merge_from_user_config default_kafka_config merge_base_config
    merge_base_config_of default_role_group_config_spec with_resources merge_resources
    merge_overrides merge_overrides_of merge_files merge_file fill_file lookup set ◌==◌
    new_role_group_service
registered = refl

register_resources-resources_of_example :
    (k : KafkaSecurity) × (role : BrokerReconciler) × (spec : BrokersSpec) × ((reconciler_or
        outcome).resources
      ≡ resources_of cluster k role)
    × IsCoherent cluster k
    × (role.kafka_tls_security ≡ k)
    × (cluster.spec.brokers ≡ some spec)
    × All IsConfigured role.resources
    × (length role.resources ≡ 5 * length spec.role_groups)
register_resources-resources_of_example =
    register_resources-resources_of constants library new_image cluster (reconciler_or outcome)
      registered

register_resources-IsRunning_role_example :
    (k : KafkaSecurity) × (role : BrokerReconciler) × ((reconciler_or outcome).resources
      ≡ resources_of cluster k role)
    × (role.stopped ≡ false)
    × All IsRunning role.resources
register_resources-IsRunning_role_example =
    register_resources-IsRunning_role constants library new_image cluster (reconciler_or outcome)
      registered

register_resources-IsBuilt_role_example :
    (k : KafkaSecurity) × (role : BrokerReconciler) × ((reconciler_or outcome).resources
      ≡ resources_of cluster k role)
    × All (IsBuilt constants toolkit pods renderers order) role.resources
unfolding is_set ◌==◌
register_resources-IsBuilt_role_example =
    register_resources-IsBuilt_role constants library new_image cluster (reconciler_or outcome)
      registered toolkit pods renderers order refl refl pods_keep pods_return (λ client. ([], refl))
      renderers_render once

cluster_IsComplete : IsComplete library cluster
cluster_IsComplete =
    (_, image_spec, "IfNotPresent", brokers, refl, refl, refl, refl, groups-IsAdmissible)

register_resources-Succeeds_example : Succeeds (
    register_resources constants library new_image
      (new_cluster_reconciler cluster cluster.name cluster.spec))
register_resources-Succeeds_example =
    register_resources-Succeeds constants library new_image cluster new_image_RunsOption
      library_laws cluster_IsComplete
