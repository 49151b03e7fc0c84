-- ===== src/Broker/References.antt =====
-- internal/controller/role.go: the objects of a role group refer to each other by their names.
use kafka_operator.Prelude.{
  String, true, Option, List, [], ◌∷◌, ◌≡◌, refl, sym, subst, ◌∙◌, ok, >>=-eq-ok,
  Result-ok_injective, is_set,
}
use kafka_operator.Prelude.Lists.{All}
use kafka_operator.Prelude.Int.{ℤ}
use kafka_operator.Api.Library.{Constants, OverridesSpec, PersistentVolumeClaim, StatefulSet}
use kafka_operator.Api.Types.{BrokersConfigSpec, BrokersRoleGroupSpec, BrokersSpec}
use kafka_operator.ConfigMap.{KafkaConfigmapBuilder, new_kafka_configmap_builder}
use kafka_operator.Container.{Toolkit}
use kafka_operator.ListenerBuilder.{
  GenericBuilder, new_listener_builder, role_group_bootstrap_listener,
}
use kafka_operator.Service.{
  Service, ServiceBuilder, ServiceOptions, get_object, new_role_group_service,
}
use kafka_operator.Service.Metrics.{new_role_group_service-name}
use kafka_operator.StatefulSet.{PodBuilder, build, new_stateful_set_builder}
use kafka_operator.StatefulSet.Template.{Keeps}
use kafka_operator.StatefulSet.Reconciler.{StatefulSetReconciler, new_stateful_set_reconciler}
use kafka_operator.StatefulSet.Named.{RefersTo, RefersToListener}
use kafka_operator.StatefulSet.References.{build-HasReferences}
use kafka_operator.Broker.{
  BrokerReconciler, Reconciler, RoleLibrary, bootstrap_listener, kafka_configmap, metrics_service,
  register_resource_with_role_group, register_role_group, role_group_info, role_group_service,
  stateful_set,
}
use kafka_operator.Broker.Registered.{register_role_group-IsRegisteredOf}

-- A stateful set refers to a service, which has the addresses of pods that are not ready, a config map, a bootstrap listener and a service account.
abbrev pub IsWired :
    Constants
    → ServiceBuilder
    → KafkaConfigmapBuilder
    → GenericBuilder
    → String
    → StatefulSet
    → Type 0
IsWired c svc config_map listener account sts =
    (sts.service_name ≡ svc.base_service_builder.name)
    × ((base_object : ServiceOptions → Service)
        → (get_object base_object svc).publish_not_ready_addresses ≡ true)
    × All (RefersTo config_map.name) sts.volumes
    × (sts.service_account_name ≡ account)
    × ((bootstrap data' : PersistentVolumeClaim) × (sts.volume_claim_templates
          ≡ bootstrap ∷ data' ∷ [])
        × RefersToListener c listener.meta.name bootstrap)

module _ (c : Constants) (class_key : is_set c.listeners_class ≡ true)
    (name_key : is_set c.listener_name ≡ true) (t : Toolkit) (p : PodBuilder) (lib : RoleLibrary)
    (b : BrokerReconciler) where
  -- how the five reconcilers of a role group are wired
  abbrev AreWired : List Reconciler → Type 0
  AreWired
        (role_group_service svc
          ∷ kafka_configmap config_map
          ∷ stateful_set set
          ∷ bootstrap_listener listener
          ∷ metrics) =
      (sts : StatefulSet)
      → Keeps p set.builder.overrides
      → All (RefersTo config_map.name) p.vector_volumes
      → build c t p set.builder ≡ ok sts
      → IsWired c svc config_map listener b.role_info.cluster_name sts
  AreWired _ = Unit

  registered-AreWired :
      (replicas : ℤ) (name : String) (overrides : OverridesSpec) (config : BrokersConfigSpec)
      (rs : List Reconciler)
      → register_resource_with_role_group c lib b replicas
          (role_group_info c lib b name)
          overrides
          config
        ≡ ok rs
      → AreWired rs
  unfolding register_resource_with_role_group new_kafka_configmap_builder
      new_stateful_set_reconciler new_stateful_set_builder role_group_bootstrap_listener
      new_listener_builder
  registered-AreWired replicas name overrides config rs h =
      let info = role_group_info c lib b name in
      let (svc, made, same) = >>=-eq-ok (new_role_group_service c (lib.labels info) info) _ h in
      subst AreWired (Result-ok_injective same) (λ sts keeps own built.
        let refs =
          build-HasReferences c t p b.client.namespace (lib.labels info) info b.cluster_config
            config overrides b.kafka_tls_security sts class_key name_key keeps own built in
        (
          refs.service ∙ sym (new_role_group_service-name c (lib.labels info) info svc made),
          λ base_object. unfold get_object in refl,
          refs.config,
          refs.account,
          refs.listener,
        ))

  -- When a role group is registered as a service, a config map, a stateful set, a bootstrap listener
  -- and a metrics service, and the stateful set is built, the set names that service, which publishes
  -- the addresses of pods that are not ready, and the cluster's service account, mounts no other
  -- config map than that one, and its first of two claims is annotated with that listener's name. It
  -- is assumed that operator-go's annotation keys are not empty, that for the set's overrides it
  -- builds the pod of its parts as it documents, as it does without pod overrides, and that its
  -- vector volumes are no other config map.
  pub register_role_group-IsWired :
      (spec : BrokersSpec) (name : String) (group : Option BrokersRoleGroupSpec)
      (svc : ServiceBuilder) (config_map : KafkaConfigmapBuilder) (set : StatefulSetReconciler)
      (listener : GenericBuilder) (metrics : ServiceOptions) (sts : StatefulSet)
      → register_role_group c lib b spec name group
        ≡ ok (
            role_group_service svc
            ∷ kafka_configmap config_map
            ∷ stateful_set set
            ∷ bootstrap_listener listener
            ∷ metrics_service metrics
            ∷ [])
      → Keeps p set.builder.overrides
      → All (RefersTo config_map.name) p.vector_volumes
      → build c t p set.builder ≡ ok sts
      → IsWired c svc config_map listener b.role_info.cluster_name sts
  register_role_group-IsWired spec name group svc config_map set listener metrics sts h keeps own
        built =
      let (role_group, _, (overrides, config, _, _, registered)) =
        register_role_group-IsRegisteredOf c lib b spec name group _ h in
      registered-AreWired role_group.replicas name overrides config _ registered sts keeps own built
