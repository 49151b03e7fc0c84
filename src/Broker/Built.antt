-- ===== src/Broker/Built.antt =====
-- internal/controller/role.go: that the objects of the registered reconcilers can be built.
use kafka_operator.Prelude.{
  String, true, none, some, List, [], ◌≡◌, ◌⊎◌, inl, inr, refl, subst, ok, panic, >>=-eq-ok,
  Result-ok_injective, is_set, ◌≢◌, Option-cases, err,
}
use kafka_operator.Prelude.Lists.{All, length}
use kafka_operator.Prelude.Dict.{Dict}
use kafka_operator.Prelude.Int.{ℤ}
use kafka_operator.Ports.{RoleGroupInfo}
use kafka_operator.Api.Library.{Constants, OverridesSpec, RoleGroupConfigSpec}
use kafka_operator.Api.Types.{BrokersConfigSpec, ClusterConfigSpec, KafkaCluster}
use kafka_operator.Config.Base.{HasDefaults}
use kafka_operator.Security.Coherence.{IsCoherent}
use kafka_operator.Container.{Toolkit}
use kafka_operator.ListenerBuilder.{
  get_object, new_listener_builder, role_group_bootstrap_listener, add_labels,
}
use kafka_operator.ConfigMap
use kafka_operator.ConfigMap.{PropertyFile, Renderers, new_kafka_configmap_builder}
use kafka_operator.ConfigMap.Items.{visits}
use kafka_operator.ConfigMap.Built.{HasOutcome, RendersProperties, build-HasOutcome, yaml_of}
use kafka_operator.Config.Overrides.{HasServerFile}
use kafka_operator.Service.{new_role_group_service}
use kafka_operator.StatefulSet.{PodBuilder, build, new_stateful_set_builder}
use kafka_operator.StatefulSet.Reconciler.{new_stateful_set_reconciler}
use kafka_operator.StatefulSet.Template.{Keeps}
use kafka_operator.StatefulSet.Steps.{Succeeds}
use kafka_operator.StatefulSet.Built.{LacksAgentFlag, Returns, TemplateFails, build-Succeeds}
use kafka_operator.Broker.{
  BrokerReconciler, RoleLibrary, Reconciler, stateful_set, bootstrap_listener, kafka_configmap,
  register_resource_with_role_group, register_resources, role_group_info,
}
use kafka_operator.Broker.Registered.{register_role_group-IsRegisteredOf, register_resources-All}

-- The set's overrides patch the pod.
abbrev pub HasPodOverrides : OverridesSpec → Type 0
HasPodOverrides overrides = overrides.pod_overrides ≢ none

-- Without pod overrides, the stateful set can be built, or the vector agent's flag is missing, or
-- operator-go refuses its pod template; the config map has the outcome that its configuration
-- gives; and the listener can be built.
abbrev pub IsBuilt :
    {Generator : Type 0}
    → Constants
    → Toolkit
    → PodBuilder
    → Renderers Generator
    → List PropertyFile
    → Reconciler
    → Type 0
IsBuilt c t p renderers order (stateful_set r) =
    HasPodOverrides r.builder.overrides
    ⊎ ((spec : RoleGroupConfigSpec) × (r.builder.broker_config.role_group_config ≡ some spec)
        × (Succeeds (build c t p r.builder)
            ⊎ ((build c t p r.builder ≡ panic) × LacksAgentFlag spec)
            ⊎ ((e : String) × (build c t p r.builder ≡ err e)
                × TemplateFails t p r.builder spec e)))
IsBuilt c t p renderers order (kafka_configmap m) =
    (config : RoleGroupConfigSpec) × (cluster : ClusterConfigSpec) × (m.role_group_config
      ≡ some config)
    × (m.cluster_config ≡ some cluster)
    × HasOutcome config cluster (yaml_of renderers m cluster) (ConfigMap.build renderers order m)
IsBuilt c t p renderers order (bootstrap_listener g) = Succeeds (get_object g)
IsBuilt c t p renderers order _ = Unit

-- Without pod overrides, operator-go builds the pod of its parts as it documents.
abbrev pub KeepsPlain : PodBuilder → Type 0
KeepsPlain p = (overrides : OverridesSpec) → overrides.pod_overrides ≡ none → Keeps p overrides

-- operator-go labels the objects that a client's builder makes.
abbrev pub LabelsObjects : RoleLibrary → Type 0
LabelsObjects lib =
    (client : KafkaCluster) → (labels : Dict String) × (lib.object_labels client ≡ some labels)

module _ (c : Constants) (class_key : is_set c.listeners_class ≡ true)
    (name_key : is_set c.listener_name ≡ true) (t : Toolkit) (p : PodBuilder) (keeps : KeepsPlain p)
    (returns : Returns p) (lib : RoleLibrary) (labelled : LabelsObjects lib) (b : BrokerReconciler)
    (coherent : IsCoherent b.client b.kafka_tls_security) (config : ClusterConfigSpec)
    (configured : b.cluster_config ≡ some config) {Generator : Type 0}
    (renderers : Renderers Generator) (renders : RendersProperties renderers)
    (order : List PropertyFile) (once : (f : PropertyFile) → visits f order ≡ 1) where
  stateful_set-IsBuilt :
      (replicas : ℤ) (info : RoleGroupInfo) (overrides : OverridesSpec)
      (broker_config : BrokersConfigSpec)
      → HasDefaults broker_config
      → IsBuilt c t p renderers order (
          stateful_set (
            new_stateful_set_reconciler b.client.namespace
              (lib.labels info)
              b.image
              replicas
              b.cluster_config
              b.cluster_operation
              info
              broker_config
              overrides
              b.kafka_tls_security))
  unfolding new_stateful_set_reconciler new_stateful_set_builder
  stateful_set-IsBuilt replicas info overrides broker_config
        (spec, resources, given, rest, cpu, memory, storage, broker, bootstrap, life) =
      let complete : HasDefaults broker_config =
        (spec, resources, given, rest, cpu, memory, storage, broker, bootstrap, life) in
      elim (Option-cases overrides.pod_overrides) [
        | inl plain ↦ rw configured (
            inr (
              spec,
              given,
              elim (build-Succeeds c class_key name_key t p overrides (keeps overrides plain)
                  returns b.client b.kafka_tls_security coherent b.client.namespace
                  (lib.labels info) info config broker_config complete spec given) [
                    | inl (built, _) ↦ inl built
                    | inr (inl fails) ↦ inr (inl fails)
                    | inr (inr (e, fails, _, why)) ↦ inr (inr (e, fails, why))
                  ],
            ))
        | inr (patch, there) ↦ inl (cc there)
      ]

  kafka_configmap-IsBuilt :
      (info : RoleGroupInfo) (overrides : OverridesSpec) (broker_config : BrokersConfigSpec)
      → HasDefaults broker_config
      → HasServerFile overrides
      → IsBuilt c t p renderers order (
          kafka_configmap (
            new_kafka_configmap_builder b.client.namespace info b.cluster_config
              b.kafka_tls_security
              (some overrides)
              broker_config.role_group_config))
  unfolding new_kafka_configmap_builder
  kafka_configmap-IsBuilt info overrides broker_config (spec, _, given, _, _, _, _, _, _, _)
        served =
      (
        spec,
        config,
        given,
        configured,
        build-HasOutcome renderers order
            (new_kafka_configmap_builder b.client.namespace info b.cluster_config
              b.kafka_tls_security (some overrides) broker_config.role_group_config)
            overrides spec config once renders refl served given configured,
      )

  registered-IsBuilt :
      (replicas : ℤ) (info : RoleGroupInfo) (overrides : OverridesSpec)
      (broker_config : BrokersConfigSpec) (rs : List Reconciler)
      → HasDefaults broker_config
      → HasServerFile overrides
      → register_resource_with_role_group c lib b replicas info overrides broker_config ≡ ok rs
      → All (IsBuilt c t p renderers order) rs × (length rs ≡ 5)
  unfolding register_resource_with_role_group role_group_bootstrap_listener new_listener_builder
      get_object add_labels
  registered-IsBuilt replicas info overrides broker_config rs complete served h =
      let (svc, _, same) = >>=-eq-ok (new_role_group_service c (lib.labels info) info) _ h in
      let (labels, there) = labelled b.client in
      let config_map = kafka_configmap-IsBuilt info overrides broker_config complete served in
      let set = stateful_set-IsBuilt replicas info overrides broker_config complete in
      subst (λ rs. All (IsBuilt c t p renderers order) rs × (length rs ≡ 5))
        (Result-ok_injective same) ((tt, (config_map, (set, (rw there (_, refl), (tt, tt))))), refl)

  -- If all role groups of a new broker role are registered, in whatever order Go visits them, then
  -- every registered stateful set without pod overrides can be built, unless the logging lacks the
  -- vector agent's flag (the build panics then) or operator-go refuses the pod template (its error
  -- then); every config map can be built, unless that flag is missing (a panic) or the agent is on
  -- and its configuration cannot be made (that error); and every bootstrap listener can be built. The
  -- role's security settings are coherent, its cluster configuration is there, operator-go's
  -- annotation keys are not empty, it labels objects and, without pod overrides, builds pods as it
  -- documents, it returns a pod template or an error, and it renders every property file.
  pub register_resources-IsBuilt :
      (r : BrokerReconciler)
      → b.resources ≡ []
      → register_resources c lib b ≡ ok r
      → All (IsBuilt c t p renderers order) r.resources
  register_resources-IsBuilt r new h =
      let (spec, there, all, count) =
        register_resources-All c lib b (IsBuilt c t p renderers order)
          (λ spec name group rs done.
            let (role_group, there, (overrides, own, complete, served, registered)) =
              register_role_group-IsRegisteredOf c lib b spec name group rs done in
            registered-IsBuilt role_group.replicas (role_group_info c lib b name) overrides own rs
              complete served registered)
          r new h in
      all
