-- ===== src/StatefulSet/Built.antt =====
-- internal/controller/statefulset.go, `Build`: when it returns a stateful set.
use kafka_operator.Prelude.{
  String, true, false, Option, none, some, List, [], ◌∷◌, ◌++◌, ◌≡◌, refl, ap, ok, panic,
  Option-cases, ◌⊎◌, is_set, Bool-cases, inl, inr,
}
use kafka_operator.Prelude.{◌≢◌, ◌∙◌, err, subst, Result-cases}
use kafka_operator.Prelude.Dict.{Dict}
use kafka_operator.Api.Library.{
  Constants, Container, LoggingSpec, OverridesSpec, RoleGroupConfigSpec, StatefulSet, Volume,
}
use kafka_operator.Api.Types.{BrokersConfigSpec, ClusterConfigSpec, KafkaCluster}
use kafka_operator.Security.{KafkaSecurity}
use kafka_operator.Security.Coherence.{IsCoherent}
use kafka_operator.Ports.{RoleGroupInfo}
use kafka_operator.Config.Base.{HasDefaults}
use kafka_operator.ConfigMap.{is_vector_enable}
use kafka_operator.Container.{Toolkit}
use kafka_operator.StatefulSet.{
  PodBuilder, StatefulSetBuilder, build, new_stateful_set_builder, add_container, add_volumes,
  add_volume_claim_templates, add_vector, create_main_container, get_object,
}
use kafka_operator.StatefulSet.Template.{Keeps}
use kafka_operator.StatefulSet.Steps.{
  Succeeds, bootstrap_listener_pvc-Succeeds, data_pvc-Succeeds, volumes_of-Succeeds,
  create_main_container-Succeeds, add_volume_and_volume_mounts-Succeeds,
}

-- The flag can be read, or there is logging without it.
pub is_vector_enable-cases :
    (logging : Option LoggingSpec)
    → Succeeds (is_vector_enable logging)
      ⊎ ((is_vector_enable logging ≡ panic)
          × ((l : LoggingSpec) × (logging ≡ some l) × (l.enable_vector_agent ≡ none)))
unfolding is_vector_enable
is_vector_enable-cases none = inl (false, refl)
is_vector_enable-cases (some l) = elim (Option-cases l.enable_vector_agent) [
  | inl missing ↦ inr (rw missing refl, (l, refl, missing))
  | inr (flag, there) ↦ inl (flag, rw there refl)
]

-- The broker's container stays the first one.
add_vector-Succeeds :
    (p : PodBuilder) (b : StatefulSetBuilder) (spec : RoleGroupConfigSpec) (main : Container)
    → b.broker_config.role_group_config ≡ some spec
    → b.containers ≡ main ∷ []
    → Succeeds (is_vector_enable spec.logging)
    → (x : StatefulSetBuilder) × (others : List Container) × (add_vector p b ≡ ok x)
      × (x.containers ≡ main ∷ others)
      × (x.overrides ≡ b.overrides)
      × (x.broker_config ≡ b.broker_config)
unfolding add_vector add_container add_volumes
add_vector-Succeeds p b spec main given first (enabled, read) = elim (Bool-cases enabled) [
  | inl on ↦
      rw (given, read, on) (_, _, refl, ap (λ xs. xs ++ p.vector_container ∷ []) first, refl, refl)
  | inr off ↦ rw (given, read, off) (_, _, refl, first, refl, refl)
]

-- operator-go returns no pod template for these overrides and this configuration, but an error, where
-- its first container is the broker's.
abbrev pub TemplateFails :
    Toolkit → PodBuilder → StatefulSetBuilder → RoleGroupConfigSpec → String → Type 0
TemplateFails t p b spec e =
    (main : Container) × (others : List Container) × (volumes : List Volume)
    × (create_main_container t p b ≡ ok main)
    × (p.get_pod_template b.overrides (some spec) (main ∷ others) volumes ≡ err e)

-- operator-go returns a pod template or an error.
abbrev pub Returns : PodBuilder → Type 0
Returns p =
    (overrides : OverridesSpec) (config : Option RoleGroupConfigSpec) (containers : List Container)
    (volumes : List Volume)
    → p.get_pod_template overrides config containers volumes ≢ panic

-- The logging is there and lacks the vector agent's flag.
abbrev pub LacksAgentFlag : RoleGroupConfigSpec → Type 0
LacksAgentFlag spec =
    (logging : LoggingSpec) × (spec.logging ≡ some logging) × (logging.enable_vector_agent ≡ none)

module _ (c : Constants) (class_key : is_set c.listeners_class ≡ true)
    (name_key : is_set c.listener_name ≡ true) (t : Toolkit) (p : PodBuilder)
    (overrides : OverridesSpec) (keeps : Keeps p overrides) (returns : Returns p)
    (cluster : KafkaCluster) (k : KafkaSecurity) (coherent : IsCoherent cluster k)
    (namespace : String) (labels : Option (Dict String)) (info : RoleGroupInfo)
    (config : ClusterConfigSpec) (broker_config : BrokersConfigSpec)
    (complete : HasDefaults broker_config) where
  broker_class : HasDefaults broker_config → is_set broker_config.broker_listener_class ≡ true
  broker_class (spec, resources, _, _, _, _, _, set, _, _) = set

  -- the steps of `Build` from the pod template on
  finished-cases :
      (x : StatefulSetBuilder) (main : Container) (others : List Container)
      → x.containers ≡ main ∷ others
      → x.overrides ≡ overrides
      → main.name ≡ "kafka"
      → ((sts : StatefulSet) × (get_object p x ≡ ok sts) × (sts.containers ≡ main ∷ others))
        ⊎ ((e : String) × (get_object p x ≡ err e)
            × (p.get_pod_template overrides x.broker_config.role_group_config
                  (main ∷ others)
                  x.volumes
                ≡ err e))
  unfolding get_object
  finished-cases x main others first given named =
      let own = x.broker_config.role_group_config in
      elim (Result-cases (p.get_pod_template overrides own (main ∷ others) x.volumes)) [
        | inl panics ↦ absurd (returns overrides own (main ∷ others) x.volumes panics)
        | inr (inl (e, fails)) ↦ inr (e, rw (given, first, fails) refl, fails)
        | inr (inr (parts, made)) ↦ inl (
          record {
            containers = parts.0;
            volumes = parts.1;
            volume_claim_templates = x.volume_claim_templates;
            service_name = x.name;
            service_account_name = "";
            pod_management_policy = "";
          },
          rw (given, first, made) refl,
          ap (λ parts. parts.0) (keeps.template own (main ∷ others) x.volumes parts made),
        )
      ]

  -- For coherent security settings and a cluster and broker configuration without gaps, `Build` for a
  -- new builder returns a stateful set and the vector agent's flag can be read; or the logging lacks
  -- that flag and `Build` panics; or the flag can be read and operator-go refuses the pod template
  -- that has the broker's container first, and `Build` returns that error. It returns no other error.
  -- It is assumed that operator-go's annotation keys are not empty, that it builds the pod of its
  -- parts as it documents for the overrides, and that it returns a pod template or an error.
  pub build-Succeeds :
      (spec : RoleGroupConfigSpec)
      → broker_config.role_group_config ≡ some spec
      → let b =
          new_stateful_set_builder namespace labels info (some config) broker_config overrides k in
        let built = build c t p b in
        (Succeeds built × Succeeds (is_vector_enable spec.logging))
        ⊎ ((built ≡ panic) × LacksAgentFlag spec)
        ⊎ ((e : String) × (built ≡ err e)
            × Succeeds (is_vector_enable spec.logging)
            × TemplateFails t p b spec e)
  unfolding build new_stateful_set_builder add_container add_volumes add_volume_claim_templates
      add_vector
  build-Succeeds spec given =
      let b =
        new_stateful_set_builder namespace labels info (some config) broker_config overrides k in
      let (main, made, named) =
        create_main_container-Succeeds t p keeps cluster b config coherent refl complete in
      let (bootstrap, claimed) = bootstrap_listener_pvc-Succeeds c class_key name_key b in
      let (claim, held) = data_pvc-Succeeds b complete in
      let with_claims =
        add_volume_claim_templates (bootstrap ∷ claim ∷ []) (add_container main b) in
      let (vs, listed) =
        volumes_of-Succeeds c class_key name_key cluster with_claims coherent
          (broker_class complete) in
      let filled = add_volumes vs with_claims in
      elim (is_vector_enable-cases spec.logging) [
        | inl readable ↦
            let (x, others, vectored, first, kept, configured) =
              add_vector-Succeeds p filled spec main given refl readable in
            elim (finished-cases x main others first kept named) [
              | inl (sts, got, own) ↦ inl (
                rw (made, claimed, held, listed, vectored, got)
                    (add_volume_and_volume_mounts-Succeeds c k _
                      broker_config.requested_secret_life_time main others own named),
                readable,
              )
              | inr (e, got, fails) ↦ inr (
                  inr (
                    e,
                    rw (made, claimed, held, listed, vectored, got) refl,
                    readable,
                    (
                      main,
                      others,
                      x.volumes,
                      made,
                      subst
                          (λ own.
                            p.get_pod_template overrides own (main ∷ others) x.volumes ≡ err e)
                          (ap (λ (x : BrokersConfigSpec). x.role_group_config) configured ∙ given)
                          fails,
                    ),
                  ))
            ]
        | inr (unreadable, missing) ↦
            inr (inl (rw (made, claimed, held, listed, given, unreadable) refl, missing))
      ]
