-- ===== src/Cluster/Registration.antt =====
-- internal/controller/cluster.go, `RegisterResources`: what a cluster's reconciler registers.
use kafka_operator.Prelude.{
  ◌*◌, true, false, none, some, List, [], ◌∷◌, ◌≡◌, refl, ap, subst, ok, >>=-eq-ok, deref,
  deref-eq-ok, Result-ok_injective, is_set,
}
use kafka_operator.Prelude.Lists.{All, length}
use kafka_operator.Api.Library.{Constants, Image}
use kafka_operator.Api.Types.{BrokersSpec, KafkaCluster}
use kafka_operator.Config.{role_name}
use kafka_operator.Security.{KafkaSecurity, new_kafka_security}
use kafka_operator.Security.Coherence.{IsCoherent, new_kafka_security-IsCoherent}
use kafka_operator.Container.{Toolkit}
use kafka_operator.StatefulSet.{PodBuilder}
use kafka_operator.StatefulSet.Reconciler.{is_stopped}
use kafka_operator.StatefulSet.Built.{Returns}
use kafka_operator.ConfigMap.{PropertyFile, Renderers}
use kafka_operator.ConfigMap.Items.{visits}
use kafka_operator.ConfigMap.Built.{RendersProperties}
use kafka_operator.Discovery.{
  new_kafka_discovery_builder, new_kafka_discovery_reconciler,
  new_kafka_discovery_node_port_reconciler,
}
use kafka_operator.Broker
use kafka_operator.Broker.{BrokerReconciler, RoleLibrary, new_broker_reconciler}
use kafka_operator.Broker.Registered.{
  IsConfigured, IsRunning, register_resources-IsConfigured, register_resources-IsRunning,
  register_resources-others,
}
use kafka_operator.Broker.Built.{IsBuilt, KeepsPlain, LabelsObjects, register_resources-IsBuilt}
use kafka_operator.Cluster.{
  ClusterReconciler, NewImage, Resource, service_account, broker_role, discovery, get_image,
  new_cluster_reconciler, register_resources, add_resource,
}

-- The broker role of a cluster, before it registers anything.
abbrev pub broker_of : KafkaCluster → Image → KafkaSecurity → BrokerReconciler
broker_of cluster image k =
    new_broker_reconciler cluster (record { cluster_name = cluster.name; role_name = role_name })
      cluster.spec.brokers image cluster.spec.cluster_config none k

-- The service account, the broker role with what it registered, and both discovery config maps.
abbrev pub resources_of : KafkaCluster → KafkaSecurity → BrokerReconciler → List Resource
resources_of cluster k role =
    service_account cluster.name
    ∷ broker_role role
    ∷ discovery (new_kafka_discovery_builder cluster.name k false)
    ∷ discovery (new_kafka_discovery_builder cluster.name k true)
    ∷ []

module _ (c : Constants) (lib : RoleLibrary) (new_image : NewImage) (cluster : KafkaCluster)
    (r : ClusterReconciler)
    (h : register_resources c lib new_image
        (new_cluster_reconciler cluster cluster.name cluster.spec)
      ≡ ok r) where
  parts :
      (k : KafkaSecurity) × (image : Image) × (role : BrokerReconciler) × (new_kafka_security
          cluster
        ≡ ok k)
      × (Broker.register_resources c lib (broker_of cluster image k) ≡ ok role)
      × (r.resources ≡ resources_of cluster k role)
  unfolding register_resources new_cluster_reconciler add_resource new_kafka_discovery_reconciler
      new_kafka_discovery_node_port_reconciler
  parts =
      let (k, secured, rest) = >>=-eq-ok (new_kafka_security cluster) _ h in
      let (image, imaged, rest1) = >>=-eq-ok (get_image new_image _) _ rest in
      let (role, registered, same) =
        >>=-eq-ok (Broker.register_resources c lib (broker_of cluster image k)) _ rest1 in
      (
        k,
        image,
        role,
        secured,
        registered,
        subst (λ (r : ClusterReconciler). r.resources ≡ resources_of cluster k role)
            (Result-ok_injective same) refl,
      )

  -- When a new reconciler's registration succeeds, its resources are the service account, the broker
  -- role, the discovery config map and the node port's, in this order. The role has five reconcilers
  -- for each role group, with a configuration without gaps, and all have coherent security settings.
  pub register_resources-resources_of :
      (k : KafkaSecurity) × (role : BrokerReconciler) × (spec : BrokersSpec) × (r.resources
        ≡ resources_of cluster k role)
      × IsCoherent cluster k
      × (role.kafka_tls_security ≡ k)
      × (cluster.spec.brokers ≡ some spec)
      × All IsConfigured role.resources
      × (length role.resources ≡ 5 * length spec.role_groups)
  unfolding new_broker_reconciler
  register_resources-resources_of =
      let (k, image, role, secured, registered, same) = parts in
      let (spec, there, all, count) =
        register_resources-IsConfigured c lib (broker_of cluster image k) role refl registered in
      let kept = register_resources-others c lib (broker_of cluster image k) role registered in
      (
        k,
        role,
        spec,
        same,
        new_kafka_security-IsCoherent cluster k secured,
        ap (λ (x : BrokerReconciler). x.kafka_tls_security) kept,
        there,
        all,
        count,
      )

  -- When a new reconciler's registration succeeds, neither its broker role nor any of its stateful
  -- sets is stopped, whatever the cluster's operation says.
  pub register_resources-IsRunning_role :
      (k : KafkaSecurity) × (role : BrokerReconciler) × (r.resources ≡ resources_of cluster k role)
      × (role.stopped ≡ false)
      × All IsRunning role.resources
  unfolding new_broker_reconciler is_stopped
  register_resources-IsRunning_role =
      let (k, image, role, secured, registered, same) = parts in
      let b = broker_of cluster image k in
      let kept = register_resources-others c lib b role registered in
      (
        k,
        role,
        same,
        ap (λ (x : BrokerReconciler). x.stopped) kept,
        register_resources-IsRunning c lib b role refl refl registered,
      )

  -- When a new reconciler's registration succeeds, every stateful set of its broker role without pod
  -- overrides can be built, unless the logging lacks the vector agent's flag (the build panics then)
  -- or operator-go refuses the pod template (its error then); every config map can be built, unless
  -- that flag is missing (a panic) or the agent is on and its configuration cannot be made (that
  -- error); and every bootstrap listener can be built. operator-go's annotation keys are not empty,
  -- it labels objects and, without pod overrides, builds pods as it documents, it returns a pod
  -- template or an error, and it renders every property file.
  pub register_resources-IsBuilt_role :
      (t : Toolkit) (p : PodBuilder) {Generator : Type 0} (renderers : Renderers Generator)
      (order : List PropertyFile)
      → is_set c.listeners_class ≡ true
      → is_set c.listener_name ≡ true
      → KeepsPlain p
      → Returns p
      → LabelsObjects lib
      → RendersProperties renderers
      → ((f : PropertyFile) → visits f order ≡ 1)
      → (k : KafkaSecurity) × (role : BrokerReconciler) × (r.resources
          ≡ resources_of cluster k role)
        × All (IsBuilt c t p renderers order) role.resources
  unfolding new_broker_reconciler new_kafka_security
  register_resources-IsBuilt_role t p renderers order class_key name_key keeps returns labelled
        renders once =
      let (k, image, role, secured, registered, same) = parts in
      let (config, there, _) = >>=-eq-ok (deref cluster.spec.cluster_config) _ secured in
      (
        k,
        role,
        same,
        register_resources-IsBuilt c class_key name_key t p keeps returns lib labelled
            (broker_of cluster image k) (new_kafka_security-IsCoherent cluster k secured) config
            (deref-eq-ok cluster.spec.cluster_config there) renderers renders order once role refl
            registered,
      )
